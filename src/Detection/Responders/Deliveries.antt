-- ===== src/Detection/Responders/Deliveries.antt =====
-- ResponderPipeline.Run as a flat list of deliveries.
use mini_edr.Prelude.{
  Text, List, [], ◌∷◌, ◌++◌, none, some, ◌≡◌, refl, ap, sym, ◌∙◌, All, All-append,
}
use mathlib.Core.List.{append_assoc}
use mini_edr.Detection.Types.{Alert, World}
use mini_edr.Detection.Responders.{Responder, ResponderPipeline, named_error, notify_all, run}

-- A responder, and an alert that it is handed.
pub record Delivery (F E : Type 0) : Type 0 where
  pub responder : Responder F E
  pub alert : Alert F

module _ {F E : Type 0} where
  unfoldable pub deliveries_of : ResponderPipeline F E → Alert F → List (Delivery F E)
  deliveries_of [] a = []
  deliveries_of (none ∷ rs) a = deliveries_of rs a
  deliveries_of (some r ∷ rs) a = record { responder = r; alert = a } ∷ deliveries_of rs a

  -- Each alert in turn to every responder that is not nil, in the order of the slice.
  unfoldable pub deliveries : ResponderPipeline F E → List (Alert F) → List (Delivery F E)
  unfolding deliveries_of
  deliveries rs [] = []
  deliveries rs (a ∷ alerts) = deliveries_of rs a ++ deliveries rs alerts

  -- All deliveries one after the other, with the errors that they give.
  unfoldable pub deliver : List (Delivery F E) → World E → List Text × World E
  deliver [] w = ([], w)
  deliver (d ∷ ds) w =
      let (err, w') = d.responder.handle d.alert w in
      let (errs, w'') = deliver ds w' in (named_error d.responder.name err ++ errs, w'')

  deliver-append :
      (ds es : List (Delivery F E)) (w : World E)
      → deliver (ds ++ es) w
        ≡ ((deliver ds w).0 ++ (deliver es (deliver ds w).1).0, (deliver es (deliver ds w).1).1)
  unfolding deliver
  deliver-append [] es w = refl
  deliver-append (d ∷ ds) es w =
      let (err, w') = d.responder.handle d.alert w in
      let errs = named_error d.responder.name err in
      ap (λ (r : List Text × World E). (errs ++ r.0, r.1)) (deliver-append ds es w')
      ∙ ap (λ (l : List Text). (l, (deliver es (deliver ds w').1).1))
          (sym (append_assoc errs (deliver ds w').0 (deliver es (deliver ds w').1).0))

  notify_all-deliver :
      (rs : ResponderPipeline F E) (a : Alert F) (w : World E)
      → notify_all rs a w ≡ deliver (deliveries_of rs a) w
  unfolding notify_all deliver deliveries_of
  notify_all-deliver [] a w = refl
  notify_all-deliver (none ∷ rs) a w = notify_all-deliver rs a w
  notify_all-deliver (some r ∷ rs) a w =
      let (err, w') = r.handle a w in
      ap (λ (s : List Text × World E). (named_error r.name err ++ s.0, s.1))
        (notify_all-deliver rs a w')

  -- Run makes every delivery, in order, whatever errors the earlier ones gave, and returns all the
  -- errors.
  pub run-deliver :
      (rs : ResponderPipeline F E) (alerts : List (Alert F)) (w : World E)
      → run rs alerts w ≡ deliver (deliveries rs alerts) w
  unfolding run deliveries deliver
  run-deliver rs [] w = refl
  run-deliver rs (a ∷ alerts) w =
      let first = notify_all rs a w in
      ap (λ (s : List Text × World E). (first.0 ++ s.0, s.1)) (run-deliver rs alerts first.1)
      ∙ ap
          (λ (s : List Text × World E).
            (s.0 ++ (deliver (deliveries rs alerts) s.1).0, (deliver (deliveries rs alerts) s.1).1))
          (notify_all-deliver rs a w)
      ∙ sym (deliver-append (deliveries_of rs a) (deliveries rs alerts) w)

module _ {F E : Type 0} (P : Alert F → Type 0) where
  deliveries_of-All :
      (rs : ResponderPipeline F E) (a : Alert F) → P a → All (λ d. P d.alert) (deliveries_of rs a)
  unfolding deliveries_of
  deliveries_of-All [] a h = tt
  deliveries_of-All (none ∷ rs) a h = deliveries_of-All rs a h
  deliveries_of-All (some r ∷ rs) a h = (h, deliveries_of-All rs a h)

  pub deliveries-All :
      (rs : ResponderPipeline F E) (alerts : List (Alert F))
      → All P alerts
      → All (λ d. P d.alert) (deliveries rs alerts)
  unfolding deliveries
  deliveries-All rs [] h = tt
  deliveries-All rs (a ∷ alerts) h =
      All-append (λ (d : Delivery F E). P d.alert) (deliveries_of rs a) (deliveries rs alerts)
        (deliveries_of-All rs a h.0) (deliveries-All rs alerts h.1)
