-- ===== src/Response/Killer/Targets.antt =====
-- Which processes ProcessKillerResponder of response_actions.go terminates.
use mini_edr.Prelude.{
  bytes, if◌then◌else◌, ℤ, Text, text_eq, true, false, List, [], ◌∷◌, ◌++◌, Option, none, some, ◌≡◌,
  refl, sym, append_nil, append_assoc, arith, is_empty, text_beq, Float64, lookup,
}
use mini_edr.Capturer.Info.{ProcMeta}
use mini_edr.Detection.Types.{Alert, World}
use mini_edr.Detection.Ioc.Matcher.{IocMatcher}
use mini_edr.Detection.Ioc.Rule.{process_alert}
use mini_edr.Response.Killer.{
  Action, ProcessKiller, kill, kill_unless_dry, kill_loop, kill_handle, extract_alert_pids,
  listed_pids,
}

-- A KillFn that fails as `fails` says, and enters each call in a journal.
abbrev pub journal : (ℤ → Option Text) → Action (List ℤ)
journal fails pid w = (fails pid, record w { outside = w.outside ++ pid ∷ [] })

-- The identifiers up to the first one that fails, that one included, and its error.
unfoldable pub attempted : (ℤ → Option Text) → List ℤ → List ℤ × Option Text
attempted fails [] = ([], none)
attempted fails (pid ∷ pids) =
    let rest = attempted fails pids in
    elim (fails pid) [ some err ↦ (pid ∷ [], some err) | none ↦ (pid ∷ rest.0, rest.1) ]

kill_unless_dry-dry :
    {E : Type 0} (r : ProcessKiller E) (pid : ℤ) (w : World E)
    → r.dry_run ≡ true
    → kill_unless_dry r pid w ≡ (none, w)
unfolding kill_unless_dry
kill_unless_dry-dry r pid w dry = ground (arith, dry)

kill_unless_dry-journal :
    (r : ProcessKiller (List ℤ)) (fails : ℤ → Option Text) (pid : ℤ) (w : World (List ℤ))
    → r.dry_run ≡ false
    → r.kill_fn ≡ some (journal fails)
    → kill_unless_dry r pid w ≡ journal fails pid w
unfolding kill_unless_dry kill
kill_unless_dry-journal r fails pid w wet fn = rw (wet, fn) refl

kill_loop-dry :
    {E : Type 0} (r : ProcessKiller E) (pids : List ℤ) (w : World E)
    → r.dry_run ≡ true
    → kill_loop r pids w ≡ (none, w)
unfolding kill_loop
kill_loop-dry r [] w dry = refl
kill_loop-dry r (pid ∷ pids) w dry =
    ground (arith, kill_unless_dry-dry r pid w dry, kill_loop-dry r pids w dry)

-- A dry run changes nothing, whatever the alert, and whatever the ways to kill are.
pub kill_handle-dry :
    {E F : Type 0} ⦃fl : Float64 F⦄ (r : ProcessKiller E) (a : Alert F) (w : World E)
    → r.dry_run ≡ true
    → (kill_handle r a w).1 ≡ w
unfolding kill_handle
kill_handle-dry r a w dry = ground (arith, kill_loop-dry r (extract_alert_pids a.evidence) w dry)

kill_loop-attempted :
    (r : ProcessKiller (List ℤ)) (fails : ℤ → Option Text) (pids : List ℤ) (w : World (List ℤ))
    → r.dry_run ≡ false
    → r.kill_fn ≡ some (journal fails)
    → ((kill_loop r pids w).0 ≡ (attempted fails pids).1)
      × ((kill_loop r pids w).1.outside ≡ w.outside ++ (attempted fails pids).0)
unfolding kill_loop attempted
kill_loop-attempted r fails [] w wet fn = (refl, sym (append_nil w.outside))
kill_loop-attempted r fails (pid ∷ pids) w wet fn =
    let rest = kill_loop-attempted r fails pids (journal fails pid w).1 wet fn in
    ground (
      arith,
      kill_unless_dry-journal r fails pid w wet fn,
      rest.0,
      rest.1,
      append_assoc w.outside (pid ∷ []) (attempted fails pids).0,
    )

-- Outside a dry run, and with a KillFn that enters its calls in a journal and fails for some
-- processes, the calls are those for the identifiers in the evidence, in order, up to the first that
-- fails. The error of that call is returned, if there is one; an alert without an identifier gives
-- the error that says so.
pub kill_handle-attempted :
    {F : Type 0} ⦃fl : Float64 F⦄ (r : ProcessKiller (List ℤ)) (fails : ℤ → Option Text)
    (a : Alert F) (w : World (List ℤ))
    → r.dry_run ≡ false
    → r.kill_fn ≡ some (journal fails)
    → let pids = extract_alert_pids a.evidence in
      ((kill_handle r a w).1.outside ≡ w.outside ++ (attempted fails pids).0)
      × ((kill_handle r a w).0 ≡ (
          if is_empty pids
          then some (bytes "process_kill: no pid in alert evidence")
          else (attempted fails pids).1))
unfolding kill_handle attempted
kill_handle-attempted r fails a w wet fn =
    let done = kill_loop-attempted r fails (extract_alert_pids a.evidence) w wet fn in
    ground (arith, done.0, done.1, append_nil w.outside)

-- An alert for a process that matched an indicator names that process, and no other, to the killer.
pub process_alert-target :
    {F : Type 0} ⦃fl : Float64 F⦄ (m : IocMatcher) (p : ProcMeta) (a : Alert F)
    → process_alert m p ≡ some a
    → extract_alert_pids a.evidence ≡ p.pid ∷ []
unfolding process_alert extract_alert_pids listed_pids lookup text_beq
process_alert-target m p a h = ground (arith, h)
