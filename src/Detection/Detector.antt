-- ===== src/Detection/Detector.antt =====
-- Detector of detection.go: the rules, and the filters that their alerts go through.
pub mod Complete
pub mod Outside
use mini_edr.Prelude.{List, [], ◌∷◌, ◌++◌, Option, none, some, Float64}
use mini_edr.Capturer.Info.{InfoData}
use mini_edr.Detection.Types.{Alert, RuleSpec, World}
use mini_edr.Detection.Enrich.{IdSource, enrich_alert}
use mini_edr.Detection.Dedup.{AlertDeduper, dedup_filter}
use mini_edr.Detection.RateLimit.{RateLimiter, limit_filter}

-- `none` is a nil pointer.
pub record Detector (F : Type 0) : Type 0 where
  pub rules : List (RuleSpec F)
  pub deduper : Option AlertDeduper
  pub limiter : Option RateLimiter
  pub ids : IdSource

module _ {F : Type 0} where
  -- The alerts of one rule.
  unfoldable pub enrich_all :
      {E : Type 0}
      → ⦃fl : Float64 F⦄ → InfoData F
      → RuleSpec F
      → List (Alert F)
      → IdSource
      → World E
      → List (Alert F) × IdSource × World E
  enrich_all info r [] ids w = ([], ids, w)
  enrich_all info r (a ∷ alerts) ids w =
      let (a', ids', w') = enrich_alert ids a info r w in
      let (out, ids'', w'') = enrich_all info r alerts ids' w' in (a' ∷ out, ids'', w'')

  abbrev pub rule_alerts : RuleSpec F → InfoData F → List (Alert F)
  rule_alerts r info = elim r.eval [ none ↦ [] | some eval ↦ eval info ]

  unfoldable pub run_rules :
      {E : Type 0}
      → ⦃fl : Float64 F⦄ → List (RuleSpec F)
      → InfoData F
      → IdSource
      → World E
      → List (Alert F) × IdSource × World E
  unfolding enrich_all
  run_rules [] info ids w = ([], ids, w)
  run_rules (r ∷ rules) info ids w =
      let (first, ids', w') = enrich_all info r (rule_alerts r info) ids w in
      let (rest, ids'', w'') = run_rules rules info ids' w' in (first ++ rest, ids'', w'')

  -- (*Detector).dedup and (*Detector).rateLimit on a detector that is not nil
  unfoldable pub dedup :
      {E : Type 0}
      → Option AlertDeduper
      → List (Alert F)
      → World E
      → List (Alert F) × Option AlertDeduper × World E
  dedup none alerts w = (alerts, none, w)
  dedup (some d) alerts w = let (out, d', w') = dedup_filter d alerts w in (out, some d', w')

  unfoldable pub rate_limit :
      {E : Type 0}
      → Option RateLimiter
      → List (Alert F)
      → World E
      → List (Alert F) × Option RateLimiter × World E
  rate_limit none alerts w = (alerts, none, w)
  rate_limit (some r) alerts w = let (out, r', w') = limit_filter r alerts w in (out, some r', w')

  -- (*Detector).Evaluate on a detector that is not nil
  unfoldable pub evaluate :
      {E : Type 0}
      → ⦃fl : Float64 F⦄ → Detector F
      → InfoData F
      → World E
      → List (Alert F) × Detector F × World E
  unfolding run_rules dedup rate_limit
  evaluate d info w =
      let (found, ids, w₁) = run_rules d.rules info d.ids w in
      let (fresh, deduper, w₂) = dedup d.deduper found w₁ in
      let (out, limiter, w₃) = rate_limit d.limiter fresh w₂ in
      (out, record d { deduper = deduper; limiter = limiter; ids = ids }, w₃)
