-- ===== src/Pipeline.antt =====
-- AlertPipeline of pipeline.go: detection, then the responders.
pub mod Delivery
pub mod Reports
use mini_edr.Prelude.{
  Text, not, List, [], Option, none, some, is_empty, keep, if◌then◌else◌, Float64,
}
use mini_edr.Capturer.Info.{InfoData}
use mini_edr.Detection.Types.{Alert, World}
use mini_edr.Detection.Detector.{Detector, evaluate}
use mini_edr.Detection.Responders.{ResponderPipeline, run}
use mini_edr.Response.Router.{ResponseRouter, run_router}

-- `none` is a nil pointer.
pub record AlertPipeline (F E : Type 0) : Type 0 where
  pub detector : Option (Detector F)
  pub router : Option (ResponseRouter F E)
  pub responder : Option (ResponderPipeline F E)

module _ {F : Type 0} where
  -- `if !a.RateLimited { deliver = append(deliver, a) }` over the alerts
  abbrev pub deliverable : List (Alert F) → List (Alert F)
  deliverable alerts = keep (λ a. not a.rate_limited) alerts

module _ {F E : Type 0} where
  -- What the two branches for a router and for plain responders do with the alerts to deliver.
  unfoldable pub respond :
      Option (ResponseRouter F E)
      → Option (ResponderPipeline F E)
      → List (Alert F)
      → World E
      → List Text × Option (ResponseRouter F E) × World E
  respond (some r) responder deliver w =
      if is_empty deliver
      then ([], some r, w)
      else (let (errs, r', w') = run_router r deliver w in (errs, some r', w'))
  respond none (some rs) deliver w =
      if is_empty deliver
      then ([], none, w)
      else (let (errs, w') = run rs deliver w in (errs, none, w'))
  respond none none deliver w = ([], none, w)

  -- Process with the detector that the pipeline has.
  unfoldable pub process_with :
      ⦃fl : Float64 F⦄
      → Option (Detector F)
      → AlertPipeline F E
      → InfoData F
      → World E
      → List (Alert F) × List Text × AlertPipeline F E × World E
  process_with none p info w = ([], [], p, w)
  process_with (some d) p info w =
      let (alerts, d', w₁) = evaluate d info w in
      if is_empty alerts
      then (alerts, [], record p { detector = some d' }, w₁)
      else (let (errs, router, w₂) = respond p.router p.responder (deliverable alerts) w₁ in
          (alerts, errs, record p { detector = some d'; router = router }, w₂))

  -- (*AlertPipeline).Process on a pipeline that is not nil
  unfoldable pub process :
      ⦃fl : Float64 F⦄
      → AlertPipeline F E
      → InfoData F
      → World E
      → List (Alert F) × List Text × AlertPipeline F E × World E
  unfolding process_with
  process p info w = process_with p.detector p info w
