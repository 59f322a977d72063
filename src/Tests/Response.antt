-- ===== src/Tests/Response.antt =====
-- response.go and pipeline.go: runs and instances.
use mini_edr.Prelude.{
  ℕ, ℤ, pos, Text, bytes, true, false, List, [], ◌∷◌, ◌++◌, Option, none, some, ◌≡◌, refl, ap, ◌↔◌,
  arith, text_eq, int_floats, All, Pairs,
}
use mini_edr.Detection.Types.{Alert}
use mini_edr.Detection.Enrich.Complete.{GivesIds}
use mini_edr.Detection.Detector.{Detector}
use mini_edr.Response.Policy.{PolicyEngine, should_respond}
use mini_edr.Response.Policy.Decision.{Admits, should_respond_iff}
use mini_edr.Response.Policy.Cooldown.{Call, Spaced, answers, answers-Spaced}
use mini_edr.Response.Router.{ResponseRouter, route}
use mini_edr.Response.Router.Partition.{Interleaved, journal, route-Interleaved}
use mini_edr.Pipeline.{AlertPipeline, process}
use mini_edr.Pipeline.Delivery.{IsDeliverable, process-Keeps}
use mini_edr.Tests.Samples.{cpu, net, blank_info, loud_rule, no_ids, world_at, recorder}

-- Denies the alerts of "net", and answers one key at most once in ten nanoseconds.
abbrev policy : PolicyEngine
policy = record {
  min_severity = [];
  allow_rules = [];
  deny_rules = bytes "net" ∷ [];
  cooldown = pos 10;
  last = [];
  allow_set = none;
  deny_set = none;
  ready = false;
}

should_respond_iff_example :
    ((should_respond policy cpu (world_at 0 tt)).0 ≡ true) ↔ Admits policy cpu 1000
should_respond_iff_example = should_respond_iff policy cpu (world_at 0 tt) (λ e. cc)

abbrev calls : List (Call ℤ Unit)
calls =
    record { alert = cpu; world = world_at 0 tt; forward = omega arith }
    ∷ record { alert = cpu; world = world_at 5 tt; forward = omega arith }
    ∷ record { alert = cpu; world = world_at 20 tt; forward = omega arith }
    ∷ []

answers-Spaced_example : Pairs (Spaced (pos 10)) (answers policy calls)
answers-Spaced_example = answers-Spaced policy calls refl

route-Interleaved_example :
    (dropped : List (Alert ℤ)) × Interleaved
      (route (some journal) (some policy) (cpu ∷ net ∷ []) (world_at 0 [])).0
      dropped
      (cpu ∷ net ∷ [])
    × ((route (some journal) (some policy) (cpu ∷ net ∷ []) (world_at 0 [])).2.outside
        ≡ [] ++ dropped)
route-Interleaved_example = route-Interleaved (some policy) (cpu ∷ net ∷ []) (world_at 0 [])

abbrev router : ResponseRouter ℤ (List (Alert ℤ))
router = record {
  policy = some policy;
  pipeline = some (some recorder ∷ none ∷ []);
  on_dropped = none;
}

abbrev pipeline : AlertPipeline ℤ (List (Alert ℤ))
pipeline = record {
  detector = some (record { rules = loud_rule ∷ []; deduper = none; limiter = none; ids = no_ids });
  router = some router;
  responder = none;
}

id_source : Option (Detector ℤ) → Option (ℕ → Text)
id_source none = none
id_source (some d) = d.ids.source

pipeline-GivesIds : (d : Detector ℤ) → pipeline.detector ≡ some d → GivesIds d.ids
unfolding id_source
pipeline-GivesIds d on f e n = cc (ap id_source on, e)

process-Keeps_example : All IsDeliverable (process pipeline blank_info (world_at 0 [])).3.outside
process-Keeps_example =
    process-Keeps (All IsDeliverable) pipeline blank_info (world_at 0 []) pipeline-GivesIds
      (((λ a w good kept. (good, kept)), (tt, tt)), tt) tt tt
