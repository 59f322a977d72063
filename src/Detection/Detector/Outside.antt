-- ===== src/Detection/Detector/Outside.antt =====
-- What Evaluate of detection.go does to the world outside.
use mini_edr.Prelude.{List, [], ◌∷◌, Option, none, some, ◌≡◌, refl, ◌∙◌, arith, Float64}
use mini_edr.Capturer.Info.{InfoData}
use mini_edr.Detection.Types.{Alert, RuleSpec, World}
use mini_edr.Detection.Enrich.{IdSource, enrich_alert}
use mini_edr.Detection.Dedup.{AlertDeduper, dedup_filter}
use mini_edr.Detection.RateLimit.{RateLimiter, limit_filter}
use mini_edr.Detection.Detector.{
  Detector, enrich_all, rule_alerts, run_rules, dedup, rate_limit, evaluate,
}

module _ {F E : Type 0} where
  enrich_alert-outside :
      ⦃fl : Float64 F⦄
      → (ids : IdSource) (a : Alert F) (info : InfoData F) (r : RuleSpec F) (w : World E)
      → (enrich_alert ids a info r w).2.outside ≡ w.outside
  unfolding enrich_alert
  enrich_alert-outside ids a info r w = ground arith

  enrich_all-outside :
      ⦃fl : Float64 F⦄
      → (info : InfoData F) (r : RuleSpec F) (alerts : List (Alert F)) (ids : IdSource)
        (w : World E)
      → (enrich_all info r alerts ids w).2.outside ≡ w.outside
  unfolding enrich_all
  enrich_all-outside info r [] ids w = refl
  enrich_all-outside info r (a ∷ alerts) ids w =
      let first = enrich_alert ids a info r w in
      enrich_all-outside info r alerts first.1 first.2 ∙ enrich_alert-outside ids a info r w

  run_rules-outside :
      ⦃fl : Float64 F⦄
      → (rules : List (RuleSpec F)) (info : InfoData F) (ids : IdSource) (w : World E)
      → (run_rules rules info ids w).2.outside ≡ w.outside
  unfolding run_rules
  run_rules-outside [] info ids w = refl
  run_rules-outside (r ∷ rules) info ids w =
      let first = enrich_all info r (rule_alerts r info) ids w in
      run_rules-outside rules info first.1 first.2
      ∙ enrich_all-outside info r (rule_alerts r info) ids w

  dedup-outside :
      (d : Option AlertDeduper) (alerts : List (Alert F)) (w : World E)
      → (dedup d alerts w).2.outside ≡ w.outside
  unfolding dedup dedup_filter
  dedup-outside none alerts w = refl
  dedup-outside (some d) alerts w = ground arith

  rate_limit-outside :
      (r : Option RateLimiter) (alerts : List (Alert F)) (w : World E)
      → (rate_limit r alerts w).2.outside ≡ w.outside
  unfolding rate_limit limit_filter
  rate_limit-outside none alerts w = refl
  rate_limit-outside (some r) alerts w = ground arith

  -- Detection itself touches nothing outside.
  pub evaluate-outside :
      ⦃fl : Float64 F⦄
      → (d : Detector F) (info : InfoData F) (w : World E)
      → (evaluate d info w).2.outside ≡ w.outside
  unfolding evaluate
  evaluate-outside d info w =
      let found = run_rules d.rules info d.ids w in
      let fresh = dedup d.deduper found.0 found.2 in
      rate_limit-outside d.limiter fresh.0 fresh.2
      ∙ dedup-outside d.deduper found.0 found.2
      ∙ run_rules-outside d.rules info d.ids w
