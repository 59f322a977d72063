-- ===== src/Agent/Accounts.antt =====
-- The statistics and the errors that processInfo of agent/agent.go keeps.
use mini_edr.Prelude.{
  ℕ, suc, ◌+◌, Text, text_eq, text_beq_iff, List, [], ◌∷◌, ◌++◌, append_assoc, append_nil, Option,
  none, some, lookup-insert, ◌≡◌, refl, sym, ◌∙◌, arith, if◌then◌else◌, Float64, ◌==◌,
}
use mini_edr.Prelude.World.{World}
use mini_edr.Capturer.Info.{InfoData}
use mini_edr.Pipeline.{AlertPipeline, process}
use mini_edr.Agent.{
  Sink, CollectAgent, count_outcome, stat_of, print, record_err, record_sink_result,
  print_sink_error, consume_all, record_errs, print_alerts, run_pipeline, process_info,
}

-- An error in front of others.
abbrev with_error : Option Text → List Text → List Text
with_error none errs = errs
with_error (some err) errs = err ∷ errs

module _ {F E : Type 0} where
  -- How often a sink of this name has consumed a report.
  abbrev pub consumed : Text → CollectAgent F E → ℕ
  consumed name a = let stat = stat_of name a.sink_stats in stat.success + stat.failure

  -- How many sinks have this name.
  unfoldable pub sinks_named : Text → List (Option (Sink F E)) → ℕ
  sinks_named name [] = 0
  sinks_named name (none ∷ sinks) = sinks_named name sinks
  sinks_named name (some s ∷ sinks) =
      let others = sinks_named name sinks in if s.name == name then suc others else others

  -- The errors of the sinks, in the order of the sinks, and the world behind them.
  unfoldable pub sink_errors : InfoData F → List (Option (Sink F E)) → World E → List Text × World E
  sink_errors info [] w = ([], w)
  sink_errors info (none ∷ sinks) w = sink_errors info sinks w
  sink_errors info (some s ∷ sinks) w =
      let (err, w') = s.consume info w in
      let (errs, w'') = sink_errors info sinks w' in (with_error err errs, w'')

  consume_one-consumed :
      (name n : Text) (s : Sink F E) (err : Option Text) (a : CollectAgent F E)
      → consumed n (record_sink_result s err (print_sink_error name err a))
        ≡ (if s.name == n then suc (consumed n a) else consumed n a)
  unfolding record_sink_result record_err count_outcome stat_of print_sink_error print
  consume_one-consumed name n s none a = ground (
    arith,
    text_beq_iff s.name n,
    lookup-insert s.name n (count_outcome none (stat_of s.name a.sink_stats)) a.sink_stats,
  )
  consume_one-consumed name n s (some err) a = ground (
    arith,
    text_beq_iff s.name n,
    lookup-insert s.name n (count_outcome (some err) (stat_of s.name a.sink_stats)) a.sink_stats,
  )

  consume_all-consumed :
      (name n : Text) (info : InfoData F) (sinks : List (Option (Sink F E))) (a : CollectAgent F E)
      (w : World E)
      → consumed n (consume_all name info sinks a w).0 ≡ consumed n a + sinks_named n sinks
  unfolding consume_all sinks_named
  consume_all-consumed name n info [] a w = omega arith
  consume_all-consumed name n info (none ∷ sinks) a w = consume_all-consumed name n info sinks a w
  consume_all-consumed name n info (some s ∷ sinks) a w =
      let (err, w') = s.consume info w in
      let a' = record_sink_result s err (print_sink_error name err a) in
      ground
        (arith, consume_all-consumed name n info sinks a' w', consume_one-consumed name n s err a)

  -- What no later part of processInfo changes.
  abbrev pub SameBooks : CollectAgent F E → CollectAgent F E → Type 0
  SameBooks a b =
      (a.sinks ≡ b.sinks) × (a.sink_stats ≡ b.sink_stats) × (a.queue_drops ≡ b.queue_drops)

  record_errs-SameBooks :
      (name : Text) (errs : List Text) (a : CollectAgent F E)
      → SameBooks (record_errs name errs a) a
  unfolding record_errs record_err print
  record_errs-SameBooks name [] a = (refl, refl, refl)
  record_errs-SameBooks name (err ∷ errs) a = record_errs-SameBooks name errs _

  record_errs-errs :
      (name : Text) (errs : List Text) (a : CollectAgent F E)
      → (record_errs name errs a).errs ≡ a.errs ++ errs
  unfolding record_errs record_err print
  record_errs-errs name [] a = sym (append_nil a.errs)
  record_errs-errs name (err ∷ errs) a =
      record_errs-errs name errs _ ∙ append_assoc a.errs (err ∷ []) errs

  consume_all-kept :
      (name : Text) (info : InfoData F) (sinks : List (Option (Sink F E))) (a : CollectAgent F E)
      (w : World E)
      → ((consume_all name info sinks a w).0.sinks ≡ a.sinks)
        × ((consume_all name info sinks a w).0.pipeline ≡ a.pipeline)
        × ((consume_all name info sinks a w).0.queue_drops ≡ a.queue_drops)
  unfolding consume_all record_sink_result record_err print_sink_error print
  consume_all-kept name info [] a w = (refl, refl, refl)
  consume_all-kept name info (none ∷ sinks) a w = consume_all-kept name info sinks a w
  consume_all-kept name info (some s ∷ sinks) a w =
      let (err, w') = s.consume info w in
      ground (
        arith,
        consume_all-kept name info sinks (record_sink_result s err (print_sink_error name err a))
            w',
      )

  consume_one-errs :
      (name : Text) (s : Sink F E) (err : Option Text) (a : CollectAgent F E) (later : List Text)
      → (record_sink_result s err (print_sink_error name err a)).errs ++ later
        ≡ a.errs ++ with_error err later
  unfolding record_sink_result record_err print_sink_error print
  consume_one-errs name s none a later = refl
  consume_one-errs name s (some err) a later = append_assoc a.errs (err ∷ []) later

  consume_all-errs :
      (name : Text) (info : InfoData F) (sinks : List (Option (Sink F E))) (a : CollectAgent F E)
      (w : World E)
      → ((consume_all name info sinks a w).0.errs ≡ a.errs ++ (sink_errors info sinks w).0)
        × ((consume_all name info sinks a w).1 ≡ (sink_errors info sinks w).1)
  unfolding consume_all sink_errors
  consume_all-errs name info [] a w = (sym (append_nil a.errs), refl)
  consume_all-errs name info (none ∷ sinks) a w = consume_all-errs name info sinks a w
  consume_all-errs name info (some s ∷ sinks) a w =
      let (err, w') = s.consume info w in
      let rest =
        consume_all-errs name info sinks (record_sink_result s err (print_sink_error name err a))
          w' in
      (rest.0 ∙ consume_one-errs name s err a (sink_errors info sinks w').0, rest.1)

module _ {F E : Type 0} ⦃fl : Float64 F⦄ where
  -- The errors of the responders to the report.
  abbrev pub responder_errors : Option (AlertPipeline F E) → InfoData F → World E → List Text
  responder_errors none info w = []
  responder_errors (some p) info w = (process p info w).1

  run_pipeline-SameBooks :
      (name : Text) (info : InfoData F) (p : Option (AlertPipeline F E)) (a : CollectAgent F E)
      (w : World E)
      → SameBooks (run_pipeline name info p a w).0 a
  unfolding run_pipeline print_alerts print
  run_pipeline-SameBooks name info none a w = (refl, refl, refl)
  run_pipeline-SameBooks name info (some p) a w =
      let (alerts, errs, p', w') = process p info w in
      ground (arith, record_errs-SameBooks name errs (record a { pipeline = some p' }))

  run_pipeline-errs :
      (name : Text) (info : InfoData F) (p : Option (AlertPipeline F E)) (a : CollectAgent F E)
      (w : World E)
      → (run_pipeline name info p a w).0.errs ≡ a.errs ++ responder_errors p info w
  unfolding run_pipeline print_alerts print
  run_pipeline-errs name info none a w = sym (append_nil a.errs)
  run_pipeline-errs name info (some p) a w =
      let (alerts, errs, p', w') = process p info w in
      ground (arith, record_errs-errs name errs (record a { pipeline = some p' }))

  -- Every sink consumes the report once.
  pub process_info-consumed :
      (name : Text) (info : InfoData F) (a : CollectAgent F E) (w : World E) (n : Text)
      → consumed n (process_info name info a w).0 ≡ consumed n a + sinks_named n a.sinks
  unfolding process_info
  process_info-consumed name info a w n =
      let (a', w') = consume_all name info a.sinks a w in
      ground (
        arith,
        run_pipeline-SameBooks name info a'.pipeline a' w',
        consume_all-consumed name n info a.sinks a w,
      )

  pub process_info-kept :
      (name : Text) (info : InfoData F) (a : CollectAgent F E) (w : World E)
      → ((process_info name info a w).0.sinks ≡ a.sinks)
        × ((process_info name info a w).0.queue_drops ≡ a.queue_drops)
  unfolding process_info
  process_info-kept name info a w =
      let (a', w') = consume_all name info a.sinks a w in
      ground (
        arith,
        run_pipeline-SameBooks name info a'.pipeline a' w',
        consume_all-kept name info a.sinks a w,
      )

  -- processInfo goes on after an error, and loses none: to the errors that the agent has it adds those
  -- of the sinks, in the order of the sinks, and then those of the responders, which see the world
  -- behind all the sinks.
  pub process_info-errs :
      (name : Text) (info : InfoData F) (a : CollectAgent F E) (w : World E)
      → let (failed, w') = sink_errors info a.sinks w in
        (process_info name info a w).0.errs
        ≡ a.errs ++ failed ++ responder_errors a.pipeline info w'
  unfolding process_info
  process_info-errs name info a w =
      let (a', w') = consume_all name info a.sinks a w in
      let first = consume_all-errs name info a.sinks a w in
      ground (
        arith,
        run_pipeline-errs name info a'.pipeline a' w',
        first.0,
        first.1,
        consume_all-kept name info a.sinks a w,
        append_assoc a.errs (sink_errors info a.sinks w).0
            (responder_errors a.pipeline info (sink_errors info a.sinks w).1),
      )
