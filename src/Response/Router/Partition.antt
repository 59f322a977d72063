-- ===== src/Response/Router/Partition.antt =====
-- ResponseRouter.Run of response.go: the alerts that the responders get, and those that the hook gets.
use mini_edr.Prelude.{
  List, [], ◌∷◌, Option, none, some, ◌≡◌, refl, ap, sym, ◌∙◌, ◌++◌, Bool-cases, inl, inr, arith,
}
use mathlib.Core.List.{append-nil, append_assoc}
use mini_edr.Detection.Types.{Alert, World, time_now}
use mini_edr.Response.Policy.{PolicyEngine, check_cooldown, decide, should_respond}
use mini_edr.Response.Router.{consult, route}

-- `l` is made of `xs` and `ys`, each in its own order.
pub data Interleaved {A : Type 0} : List A → List A → List A → Type 0 where
  done : Interleaved [] [] []
  left : {x : A} {xs ys l : List A} → Interleaved xs ys l → Interleaved (x ∷ xs) ys (x ∷ l)
  right : {y : A} {xs ys l : List A} → Interleaved xs ys l → Interleaved xs (y ∷ ys) (y ∷ l)

module _ {F : Type 0} where
  -- A hook that writes down what it gets, in the outside world.
  abbrev pub journal : Alert F → World (List (Alert F)) → World (List (Alert F))
  journal a w = record w { outside = w.outside ++ a ∷ [] }

  pub consult-outside :
      {E : Type 0} (policy : Option PolicyEngine) (a : Alert F) (w : World E)
      → (consult policy a w).2.outside ≡ w.outside
  unfolding consult should_respond decide check_cooldown time_now
  consult-outside none a w = refl
  consult-outside (some p) a w = ground arith

  -- Whatever the policy, the alerts that go on and the alerts that the hook gets make up the input,
  -- each in its order: none is lost, and none is both delivered and dropped.
  pub route-Interleaved :
      (policy : Option PolicyEngine) (alerts : List (Alert F)) (w : World (List (Alert F)))
      → (dropped : List (Alert F)) × Interleaved
          (route (some journal) policy alerts w).0
          dropped
          alerts
        × ((route (some journal) policy alerts w).2.outside ≡ w.outside ++ dropped)
  unfolding route
  route-Interleaved policy [] w = ([], done, sym (append-nil w.outside))
  route-Interleaved policy (a ∷ alerts) w =
      let asked = consult policy a w in
      elim (Bool-cases asked.0) [
        | inl delivered ↦
            let (dropped, parts, seen) = route-Interleaved asked.1 alerts asked.2 in
            rw delivered
              (dropped, left parts, seen ∙ ap (λ l. l ++ dropped) (consult-outside policy a w))
        | inr refused ↦
            let (dropped, parts, seen) = route-Interleaved asked.1 alerts (journal a asked.2) in
            rw refused (
              a ∷ dropped,
              right parts,
              seen
                  ∙ append_assoc asked.2.outside (a ∷ []) dropped
                  ∙ ap (λ l. l ++ a ∷ dropped) (consult-outside policy a w),
            )
      ]
