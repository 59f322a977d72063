-- ===== src/Tests/Detection.antt =====
-- detection.go: runs and instances.
use mini_edr.Prelude.{
  ℕ, ℤ, pos, ◌≤◌, bytes, List, [], ◌∷◌, none, some, ◌≡◌, refl, arith, lookup, insert, text_beq,
  text_eq, int_floats, All, Pairs,
}
use mini_edr.Capturer.Info.{TelemetryMeta}
use mini_edr.Detection.Enrich.{enrich_alert}
use mini_edr.Detection.Enrich.Complete.{IsComplete, enrich_alert-rule_source}
use mini_edr.Detection.Dedup.{AlertDeduper, dedup_filter}
use mini_edr.Detection.Dedup.Reference.{first_fresh, dedup_filter-first_fresh}
use mini_edr.Detection.Dedup.Spacing
use mini_edr.Detection.RateLimit.{RateLimiter, limit_filter}
use mini_edr.Detection.RateLimit.Reference.{flag_beyond, limit_filter-flag_beyond}
use mini_edr.Detection.RateLimit.Bounds
use mini_edr.Detection.Detector.{Detector, evaluate}
use mini_edr.Detection.Detector.Complete.{evaluate-IsComplete}
use mini_edr.Detection.Responders.{run}
use mini_edr.Detection.Responders.Deliveries.{deliveries, deliver, run-deliver}
use mini_edr.Tests.Samples.{blank_meta, cpu, net, blank_info, loud_rule, no_ids, world_at, recorder}

abbrev deduper : AlertDeduper
deduper = record { window = pos 10; seen = [] }

abbrev limiter : RateLimiter
limiter = record { window = pos 10; burst = pos 1; windows = record { count = []; reset = [] } }

-- The second alert of a key is dropped, one of another key is not.
filter_drops : (dedup_filter deduper (cpu ∷ cpu ∷ net ∷ []) (world_at 0 tt)).0 ≡ cpu ∷ net ∷ []
unfolding dedup_filter lookup insert text_beq
filter_drops = refl

dedup_filter-first_fresh_example :
    (dedup_filter deduper (cpu ∷ cpu ∷ net ∷ []) (world_at 0 tt)).0
    ≡ first_fresh 1000 [] [] (cpu ∷ cpu ∷ net ∷ [])
dedup_filter-first_fresh_example =
    dedup_filter-first_fresh deduper (cpu ∷ cpu ∷ net ∷ []) (world_at 0 tt)

abbrev calls : List (Spacing.Call ℤ Unit)
calls =
    record { alerts = cpu ∷ cpu ∷ []; world = world_at 0 tt }
    ∷ record { alerts = cpu ∷ net ∷ []; world = world_at 5 tt }
    ∷ record { alerts = cpu ∷ []; world = world_at 10 tt }
    ∷ []

releases-Spaced_example : Pairs (Spacing.Spaced (pos 10)) (Spacing.releases deduper calls)
releases-Spaced_example = Spacing.releases-Spaced deduper calls refl

limit_filter-flag_beyond_example :
    (limit_filter limiter (cpu ∷ cpu ∷ net ∷ []) (world_at 0 tt)).0
    ≡ flag_beyond 1000 1 limiter.windows [] (cpu ∷ cpu ∷ net ∷ [])
limit_filter-flag_beyond_example =
    limit_filter-flag_beyond limiter (cpu ∷ cpu ∷ net ∷ []) (world_at 0 tt)

abbrev limited_calls : List (Bounds.Call ℤ Unit)
limited_calls =
    record { alerts = cpu ∷ cpu ∷ []; world = world_at 0 tt }
    ∷ record { alerts = cpu ∷ net ∷ []; world = world_at 5 tt }
    ∷ []

outputs-le-two_bursts_example :
    Bounds.passed (bytes "cpu") (Bounds.outputs limiter limited_calls) ≤ 2
outputs-le-two_bursts_example =
    Bounds.outputs-le-two_bursts limiter limited_calls 1000 (bytes "cpu") refl (omega arith)

abbrev opened : RateLimiter
opened = record limiter {
  windows = record { count = (bytes "cpu", 1) ∷ []; reset = (bytes "cpu", 1010) ∷ [] };
}

opened_at : lookup {V = ℕ} (bytes "cpu") opened.windows.reset ≡ some 1010
unfolding lookup text_beq
opened_at = refl

abbrev named : TelemetryMeta ℤ
named = record blank_meta { host = bytes "box" }

enrich_alert-rule_source_example :
    enrich_alert no_ids cpu blank_info (record loud_rule { source = bytes "DISK" }) (world_at 0 tt)
    ≡ enrich_alert no_ids cpu blank_info loud_rule (world_at 0 tt)
enrich_alert-rule_source_example =
    enrich_alert-rule_source no_ids cpu blank_info loud_rule (world_at 0 tt) (bytes "DISK")

abbrev detector : Detector ℤ
detector = record {
  rules = loud_rule ∷ [];
  deduper = some deduper;
  limiter = some limiter;
  ids = no_ids;
}

evaluate-IsComplete_example : All IsComplete (evaluate detector blank_info (world_at 0 tt)).0
evaluate-IsComplete_example = evaluate-IsComplete detector blank_info (world_at 0 tt) (λ f e. cc)

run-deliver_example :
    run (none ∷ some recorder ∷ []) (cpu ∷ net ∷ []) (world_at 0 [])
    ≡ deliver (deliveries (none ∷ some recorder ∷ []) (cpu ∷ net ∷ [])) (world_at 0 [])
run-deliver_example = run-deliver (none ∷ some recorder ∷ []) (cpu ∷ net ∷ []) (world_at 0 [])
