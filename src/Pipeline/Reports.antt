-- ===== src/Pipeline/Reports.antt =====
-- AlertPipeline of pipeline.go over a run of reports, when it has no router.
use mini_edr.Prelude.World.{World}
use mini_edr.Prelude.{
  List, [], ◌∷◌, Option, none, some, is_empty, ◌≡◌, refl, ap, ◌∙◌, Bool-cases, inl, inr, Float64,
}
use mini_edr.Capturer.Info.{InfoData}
use mini_edr.Detection.Types.{Alert}
use mini_edr.Detection.Detector.{Detector, evaluate}
use mini_edr.Detection.Detector.Complete.{evaluate-source}
use mini_edr.Detection.Responders.{ResponderPipeline}
use mini_edr.Pipeline.{AlertPipeline, respond, deliverable, process_with, process}
use mini_edr.Pipeline.Delivery.{KeepsAll, process-Keeps}

module _ {F : Type 0} where
  -- A detector that makes its identifiers itself
  abbrev pub NoSource : Option (Detector F) → Type 0
  NoSource none = Unit
  NoSource (some d) = d.ids.source ≡ none

  NoSource-gives :
      (detector : Option (Detector F)) (d : Detector F)
      → NoSource detector
      → detector ≡ some d
      → d.ids.source ≡ none
  NoSource-gives none d unsourced e = cc
  NoSource-gives (some c) d unsourced e = cc

module _ {F E : Type 0} ⦃fl : Float64 F⦄ where
  -- Process for one report after the other
  unfoldable pub process_all : AlertPipeline F E → List (InfoData F) → World E → World E
  process_all p [] w = w
  process_all p (info ∷ infos) w =
      let (alerts, errs, p', w') = process p info w in process_all p' infos w'

  -- A pipeline with these responders, without a router and without a source of identifiers
  pub record IsPlain (rs : Option (ResponderPipeline F E)) (p : AlertPipeline F E) : Type 0 where
    pub no_router : p.router ≡ none
    pub responders : p.responder ≡ rs
    pub no_source : NoSource p.detector

  respond-no_router :
      (rs : Option (ResponderPipeline F E)) (alerts : List (Alert F)) (w : World E)
      → (respond none rs alerts w).1 ≡ none
  unfolding respond
  respond-no_router none alerts w = refl
  respond-no_router (some rs) alerts w = elim (Bool-cases (is_empty alerts)) [
    | inl e ↦ rw e
    | inr e ↦ rw e
  ]

  process_with-IsPlain :
      (detector : Option (Detector F)) (rs : Option (ResponderPipeline F E)) (p : AlertPipeline F E)
      (info : InfoData F) (w : World E)
      → NoSource detector
      → IsPlain rs p
      → IsPlain rs (process_with detector p info w).2
  unfolding process_with
  process_with-IsPlain none rs p info w unsourced h = h
  process_with-IsPlain (some d) rs p info w unsourced h =
      let found = evaluate d info w in
      let later = evaluate-source d info w ∙ unsourced in
      elim (Bool-cases (is_empty found.0)) [
        | inl quiet ↦
            rw quiet
              (record { no_router = h.no_router; responders = h.responders; no_source = later })
        | inr loud ↦ rw loud (record {
          no_router =
              ap (λ r. (respond r p.responder (deliverable found.0) found.2).1) h.no_router
              ∙ respond-no_router p.responder (deliverable found.0) found.2;
          responders = h.responders;
          no_source = later;
        })
      ]

  -- What every responder keeps holds after any run of reports.
  pub process_all-Keeps :
      (J : E → Type 0) (rs : Option (ResponderPipeline F E)) (p : AlertPipeline F E)
      (infos : List (InfoData F)) (w : World E)
      → IsPlain rs p
      → KeepsAll J rs
      → J w.outside
      → J (process_all p infos w).outside
  unfolding process_all process
  process_all-Keeps J rs p [] w h keeps j = j
  process_all-Keeps J rs p (info ∷ infos) w h keeps j =
      process_all-Keeps J rs (process p info w).2 infos (process p info w).3
        (process_with-IsPlain p.detector rs p info w h.no_source h) keeps
        (process-Keeps J p info w
          (λ d e f g n. let unsourced = NoSource-gives p.detector d h.no_source e in cc)
          (rw h.no_router tt) (rw h.responders keeps) j)
