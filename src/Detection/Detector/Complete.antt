-- ===== src/Detection/Detector/Complete.antt =====
-- What Detector.Evaluate promises of every alert that it returns.
use mini_edr.Prelude.{
  ℤ, List, [], ◌∷◌, Option, none, some, Float64, All, All-append, ◌≡◌, refl, ◌∙◌, Bool-cases, inl,
  inr, is_nonpos, ◌||◌, arith,
}
use mini_edr.Capturer.Info.{Time, InfoData}
use mini_edr.Detection.Types.{Alert, RuleSpec, World}
use mini_edr.Detection.Enrich.{IdSource, set_id, enrich_alert}
use mini_edr.Detection.Enrich.Complete.{IsComplete, GivesIds, enrich_alert-IsComplete}
use mini_edr.Detection.Dedup.{Seen, AlertDeduper, dedup_step, dedup_loop, dedup_filter}
use mini_edr.Detection.RateLimit.{Windows, RateLimiter, limit_step, limit_loop, flag, limit_filter}
use mini_edr.Detection.Detector.{
  Detector, enrich_all, rule_alerts, run_rules, dedup, rate_limit, evaluate,
}

-- A property of alerts that does not look at the flag of the rate limiter passes through both filters.
module _ {F : Type 0} (P : Alert F → Type 0) where
  dedup_loop-All :
      (t : Time) (window : ℤ) (alerts : List (Alert F)) (seen : Seen)
      → All P alerts
      → All P (dedup_loop t window alerts seen).0
  unfolding dedup_loop
  dedup_loop-All t window [] seen h = tt
  dedup_loop-All t window (a ∷ alerts) seen h =
      let rest = dedup_loop-All t window alerts (dedup_step t window a seen).1 h.1 in
      elim (Bool-cases (dedup_step t window a seen).0) [
        | inl out ↦ rw out (h.0, rest)
        | inr kept ↦ rw kept rest
      ]

  dedup-All :
      {E : Type 0} (d : Option AlertDeduper) (alerts : List (Alert F)) (w : World E)
      → All P alerts
      → All P (dedup d alerts w).0
  unfolding dedup dedup_filter
  dedup-All none alerts w h = h
  dedup-All (some d) alerts w h = elim (Bool-cases (is_nonpos d.window)) [
    | inl off ↦ rw off h
    | inr on ↦ rw on (dedup_loop-All (w.clock w.reads) d.window alerts d.seen h)
  ]

  limit_loop-All :
      (t : Time) (window burst : ℤ) (alerts : List (Alert F)) (ws : Windows)
      → ((a : Alert F) → P a → P (flag a))
      → All P alerts
      → All P (limit_loop t window burst alerts ws).0
  unfolding limit_loop
  limit_loop-All t window burst [] ws stable h = tt
  limit_loop-All t window burst (a ∷ alerts) ws stable h =
      let rest =
        limit_loop-All t window burst alerts (limit_step t window burst a ws).1 stable h.1 in
      elim (Bool-cases (limit_step t window burst a ws).0) [
        | inl over ↦ rw over (stable a h.0, rest)
        | inr under ↦ rw under (h.0, rest)
      ]

  rate_limit-All :
      {E : Type 0} (r : Option RateLimiter) (alerts : List (Alert F)) (w : World E)
      → ((a : Alert F) → P a → P (flag a))
      → All P alerts
      → All P (rate_limit r alerts w).0
  unfolding rate_limit limit_filter
  rate_limit-All none alerts w stable h = h
  rate_limit-All (some r) alerts w stable h =
      elim (Bool-cases (is_nonpos r.window || is_nonpos r.burst)) [
        | inl off ↦ rw off h
        | inr on ↦
            rw on (limit_loop-All (w.clock w.reads) r.window r.burst alerts r.windows stable h)
      ]

module _ {F : Type 0} ⦃fl : Float64 F⦄ where
  enrich_alert-source :
      {E : Type 0} (ids : IdSource) (a : Alert F) (info : InfoData F) (r : RuleSpec F) (w : World E)
      → (enrich_alert ids a info r w).1.source ≡ ids.source
  unfolding enrich_alert
  enrich_alert-source ids a info r w = unfold set_id in ground arith

  enrich_all-source :
      {E : Type 0} (info : InfoData F) (r : RuleSpec F) (alerts : List (Alert F)) (ids : IdSource)
      (w : World E)
      → (enrich_all info r alerts ids w).1.source ≡ ids.source
  unfolding enrich_all
  enrich_all-source info r [] ids w = refl
  enrich_all-source info r (a ∷ alerts) ids w =
      let first = enrich_alert ids a info r w in
      enrich_all-source info r alerts first.1 first.2 ∙ enrich_alert-source ids a info r w

  run_rules-source :
      {E : Type 0} (rules : List (RuleSpec F)) (info : InfoData F) (ids : IdSource) (w : World E)
      → (run_rules rules info ids w).1.source ≡ ids.source
  unfolding run_rules
  run_rules-source [] info ids w = refl
  run_rules-source (r ∷ rules) info ids w =
      let first = enrich_all info r (rule_alerts r info) ids w in
      run_rules-source rules info first.1 first.2
      ∙ enrich_all-source info r (rule_alerts r info) ids w

  -- Evaluate keeps the source of identifiers.
  pub evaluate-source :
      {E : Type 0} (d : Detector F) (info : InfoData F) (w : World E)
      → (evaluate d info w).1.ids.source ≡ d.ids.source
  unfolding evaluate
  evaluate-source d info w = run_rules-source d.rules info d.ids w

  enrich_all-IsComplete :
      {E : Type 0} (info : InfoData F) (r : RuleSpec F) (alerts : List (Alert F)) (ids : IdSource)
      (w : World E)
      → GivesIds ids
      → All IsComplete (enrich_all info r alerts ids w).0
        × ((enrich_all info r alerts ids w).1.source ≡ ids.source)
  unfolding enrich_all
  enrich_all-IsComplete info r [] ids w gives = (tt, refl)
  enrich_all-IsComplete info r (a ∷ alerts) ids w gives =
      let first = enrich_alert ids a info r w in
      let same = enrich_alert-source ids a info r w in
      let rest =
        enrich_all-IsComplete info r alerts first.1 first.2 (λ f e. gives f (rw (← same) e)) in
      ((enrich_alert-IsComplete ids a info r w gives, rest.0), rest.1 ∙ same)

  run_rules-IsComplete :
      {E : Type 0} (rules : List (RuleSpec F)) (info : InfoData F) (ids : IdSource) (w : World E)
      → GivesIds ids
      → All IsComplete (run_rules rules info ids w).0
  unfolding run_rules
  run_rules-IsComplete [] info ids w gives = tt
  run_rules-IsComplete (r ∷ rules) info ids w gives =
      let first = enrich_all info r (rule_alerts r info) ids w in
      let both = enrich_all-IsComplete info r (rule_alerts r info) ids w gives in
      All-append IsComplete first.0 (run_rules rules info first.1 first.2).0 both.0
        (run_rules-IsComplete rules info first.1 first.2 (λ f e. gives f (rw (← both.1) e)))

  flag-IsComplete : (a : Alert F) → IsComplete a → IsComplete (flag a)
  flag-IsComplete a h = record {
    rule_id = h.rule_id;
    id = h.id;
    source = h.source;
    severity = h.severity;
    title = h.title;
    dedup_key = h.dedup_key;
  }

  -- Every alert that Evaluate returns has a rule, an identifier, a source, a severity, a title and a
  -- key, whatever the rules left out, if the source of identifiers never gives an empty one.
  pub evaluate-IsComplete :
      {E : Type 0} (d : Detector F) (info : InfoData F) (w : World E)
      → GivesIds d.ids
      → All IsComplete (evaluate d info w).0
  unfolding evaluate
  evaluate-IsComplete d info w gives =
      let found = run_rules d.rules info d.ids w in
      let fresh = dedup d.deduper found.0 found.2 in
      rate_limit-All IsComplete d.limiter fresh.0 fresh.2 flag-IsComplete (
        dedup-All IsComplete d.deduper found.0 found.2
          (run_rules-IsComplete d.rules info d.ids w gives))
