-- ===== src/Pipeline/Delivery.antt =====
-- What Process of pipeline.go does to the outside world, by its responders and its hook.
use mini_edr.Prelude.{
  false, List, [], ◌∷◌, Option, none, some, is_empty, not, keep-All, All-imp, ◌≡◌, refl, subst, sym,
  Bool-cases, inl, inr, arith, Float64, All,
}
use mini_edr.Capturer.Info.{InfoData}
use mini_edr.Detection.Types.{Alert, World}
use mini_edr.Detection.Enrich.Complete.{IsComplete, GivesIds}
use mini_edr.Detection.Detector.{Detector, evaluate}
use mini_edr.Detection.Detector.Complete.{evaluate-IsComplete}
use mini_edr.Detection.Responders.{Responder, ResponderPipeline, notify_all, run}
use mini_edr.Response.Policy.{PolicyEngine}
use mini_edr.Response.Router.{ResponseRouter, consult, route, drop_hook, run_or_fail, run_router}
use mini_edr.Response.Router.Partition.{consult-outside}
use mini_edr.Pipeline.{AlertPipeline, deliverable, respond, process_with, process}
use mini_edr.Detection.Detector.Outside.{evaluate-outside}

-- An alert that may have an effect.
pub record IsDeliverable {F : Type 0} (a : Alert F) : Type 0 where
  pub complete : IsComplete a
  pub unlimited : a.rate_limited ≡ false

module _ {F E : Type 0} (J : E → Type 0) where
  -- A responder keeps `J` of the outside world, as far as it is handed deliverable alerts.
  abbrev pub Keeps : Option (Responder F E) → Type 0
  Keeps none = Unit
  Keeps (some r) =
      (a : Alert F) (w : World E) → IsDeliverable a → J w.outside → J (r.handle a w).1.outside

  abbrev pub KeepsAll : Option (ResponderPipeline F E) → Type 0
  KeepsAll none = Unit
  KeepsAll (some rs) = All Keeps rs

  abbrev pub HookKeeps : Option (Alert F → World E → World E) → Type 0
  HookKeeps none = Unit
  HookKeeps (some f) =
      (a : Alert F) (w : World E) → IsDeliverable a → J w.outside → J (f a w).outside

  abbrev pub RouterKeeps : Option (ResponseRouter F E) → Type 0
  RouterKeeps none = Unit
  RouterKeeps (some r) = KeepsAll r.pipeline × HookKeeps r.on_dropped

  notify_all-Keeps :
      (rs : ResponderPipeline F E) (a : Alert F) (w : World E)
      → All Keeps rs
      → IsDeliverable a
      → J w.outside
      → J (notify_all rs a w).1.outside
  unfolding notify_all
  notify_all-Keeps [] a w keeps good j = j
  notify_all-Keeps (none ∷ rs) a w keeps good j = notify_all-Keeps rs a w keeps.1 good j
  notify_all-Keeps (some r ∷ rs) a w keeps good j =
      notify_all-Keeps rs a (r.handle a w).1 keeps.1 good (keeps.0 a w good j)

  run-Keeps :
      (rs : ResponderPipeline F E) (alerts : List (Alert F)) (w : World E)
      → All Keeps rs
      → All IsDeliverable alerts
      → J w.outside
      → J (run rs alerts w).1.outside
  unfolding run
  run-Keeps rs [] w keeps good j = j
  run-Keeps rs (a ∷ alerts) w keeps good j =
      run-Keeps rs alerts (notify_all rs a w).1 keeps good.1
        (notify_all-Keeps rs a w keeps good.0 j)

  drop_hook-Keeps :
      (hook : Option (Alert F → World E → World E)) (a : Alert F) (w : World E)
      → HookKeeps hook
      → IsDeliverable a
      → J w.outside
      → J (drop_hook hook a w).outside
  drop_hook-Keeps none a w keeps good j = j
  drop_hook-Keeps (some f) a w keeps good j = keeps a w good j

  route-Keeps :
      (hook : Option (Alert F → World E → World E)) (policy : Option PolicyEngine)
      (alerts : List (Alert F)) (w : World E)
      → HookKeeps hook
      → All IsDeliverable alerts
      → J w.outside
      → J (route hook policy alerts w).2.outside × All IsDeliverable (route hook policy alerts w).0
  unfolding route
  route-Keeps hook policy [] w keeps good j = (j, tt)
  route-Keeps hook policy (a ∷ alerts) w keeps good j =
      let asked = consult policy a w in
      let j' : J asked.2.outside = subst J (sym (consult-outside policy a w)) j in
      elim (Bool-cases asked.0) [
        | inl yes' ↦
            let rest = route-Keeps hook asked.1 alerts asked.2 keeps good.1 j' in
            rw yes' (rest.0, (good.0, rest.1))
        | inr refused ↦ rw refused (
            route-Keeps hook asked.1 alerts (drop_hook hook a asked.2) keeps good.1
              (drop_hook-Keeps hook a asked.2 keeps good.0 j'))
      ]

  run_or_fail-Keeps :
      (rs : Option (ResponderPipeline F E)) (alerts : List (Alert F)) (w : World E)
      → KeepsAll rs
      → All IsDeliverable alerts
      → J w.outside
      → J (run_or_fail rs alerts w).1.outside
  run_or_fail-Keeps none alerts w keeps good j = j
  run_or_fail-Keeps (some rs) alerts w keeps good j = run-Keeps rs alerts w keeps good j

  run_router-Keeps :
      (r : ResponseRouter F E) (alerts : List (Alert F)) (w : World E)
      → RouterKeeps (some r)
      → All IsDeliverable alerts
      → J w.outside
      → J (run_router r alerts w).2.outside
  unfolding run_router
  run_router-Keeps r alerts w keeps good j =
      let routed = route r.on_dropped r.policy alerts w in
      let kept = route-Keeps r.on_dropped r.policy alerts w keeps.1 good j in
      elim (Bool-cases (is_empty routed.0)) [
        | inl all_dropped ↦ rw all_dropped kept.0
        | inr some_left ↦
            rw some_left (run_or_fail-Keeps r.pipeline routed.0 routed.2 keeps.0 kept.1 kept.0)
      ]

  respond-Keeps :
      (router : Option (ResponseRouter F E)) (responder : Option (ResponderPipeline F E))
      (alerts : List (Alert F)) (w : World E)
      → RouterKeeps router
      → KeepsAll responder
      → All IsDeliverable alerts
      → J w.outside
      → J (respond router responder alerts w).2.outside
  unfolding respond
  respond-Keeps (some r) responder alerts w kr kp good j = elim (Bool-cases (is_empty alerts)) [
    | inl e ↦ rw e j
    | inr e ↦ rw e (run_router-Keeps r alerts w kr good j)
  ]
  respond-Keeps none (some rs) alerts w kr kp good j = elim (Bool-cases (is_empty alerts)) [
    | inl e ↦ rw e j
    | inr e ↦ rw e (run-Keeps rs alerts w kp good j)
  ]
  respond-Keeps none none alerts w kr kp good j = j

deliverable-All :
    {F : Type 0} (alerts : List (Alert F))
    → All IsComplete alerts
    → All IsDeliverable (deliverable alerts)
deliverable-All alerts h =
    All-imp (deliverable alerts)
      (λ a both. record { complete = both.0; unlimited = ground (arith, both.1) })
      (keep-All IsComplete (λ a. not a.rate_limited) alerts h)

module _ {F E : Type 0} ⦃fl : Float64 F⦄ (J : E → Type 0) where
  process_with-Keeps :
      (detector : Option (Detector F)) (p : AlertPipeline F E) (info : InfoData F) (w : World E)
      → ((d : Detector F) → detector ≡ some d → GivesIds d.ids)
      → RouterKeeps J p.router
      → KeepsAll J p.responder
      → J w.outside
      → J (process_with detector p info w).3.outside
  unfolding process_with
  process_with-Keeps none p info w gives kr kp j = j
  process_with-Keeps (some d) p info w gives kr kp j =
      let found = evaluate d info w in
      let j' : J found.2.outside = subst J (sym (evaluate-outside d info w)) j in
      elim (Bool-cases (is_empty found.0)) [
        | inl quiet ↦ rw quiet j'
        | inr loud ↦ rw loud (
            respond-Keeps J p.router p.responder (deliverable found.0) found.2 kr kp
              (deliverable-All found.0 (evaluate-IsComplete d info w (gives d refl))) j')
      ]

  -- What Process does to the outside world it does through deliverable alerts: a property of the
  -- outside that every responder and the hook keep when they are handed a complete alert that is not
  -- rate limited holds after Process if it held before, whatever the rules, the filters and the
  -- policy. The source of identifiers must give no empty one.
  pub process-Keeps :
      (p : AlertPipeline F E) (info : InfoData F) (w : World E)
      → ((d : Detector F) → p.detector ≡ some d → GivesIds d.ids)
      → RouterKeeps J p.router
      → KeepsAll J p.responder
      → J w.outside
      → J (process p info w).3.outside
  unfolding process
  process-Keeps p info w = process_with-Keeps p.detector p info w
