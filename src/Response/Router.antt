-- ===== src/Response/Router.antt =====
-- ResponseRouter of response.go.
pub mod Partition
use mini_edr.Prelude.{
  Text, bytes, Bool, true, List, [], ◌∷◌, Option, none, some, is_empty, if◌then◌else◌,
}
use mini_edr.Detection.Types.{Alert, World}
use mini_edr.Detection.Responders.{ResponderPipeline, run}
use mini_edr.Response.Policy.{PolicyEngine, should_respond}

-- `none` is a nil pointer or a nil function.
pub record ResponseRouter (F E : Type 0) : Type 0 where
  pub policy : Option PolicyEngine
  pub pipeline : Option (ResponderPipeline F E)
  pub on_dropped : Option (Alert F → World E → World E)

abbrev pub no_pipeline : Text
no_pipeline = bytes "response router: pipeline is nil"

module _ {F : Type 0} where
  -- `r.Policy == nil || r.Policy.ShouldRespond(a)`
  unfoldable pub consult :
      {E : Type 0} → Option PolicyEngine → Alert F → World E → Bool × Option PolicyEngine × World E
  consult none a w = (true, none, w)
  consult (some p) a w = let (yes', p', w') = should_respond p a w in (yes', some p', w')

  abbrev pub drop_hook :
      {E : Type 0} → Option (Alert F → World E → World E) → Alert F → World E → World E
  drop_hook none a w = w
  drop_hook (some f) a w = f a w

  -- The loop of Run: the alerts that the policy lets through.
  unfoldable pub route :
      {E : Type 0}
      → Option (Alert F → World E → World E)
      → Option PolicyEngine
      → List (Alert F)
      → World E
      → List (Alert F) × Option PolicyEngine × World E
  unfolding consult
  route hook policy [] w = ([], policy, w)
  route hook policy (a ∷ alerts) w =
      let (yes', policy', w') = consult policy a w in
      let (out, policy'', w'') =
        route hook policy' alerts (if yes' then w' else drop_hook hook a w') in
      (if yes' then a ∷ out else out, policy'', w'')

  abbrev pub run_or_fail :
      {E : Type 0} → Option (ResponderPipeline F E) → List (Alert F) → World E → List Text × World E
  run_or_fail none alerts w = (no_pipeline ∷ [], w)
  run_or_fail (some rs) alerts w = run rs alerts w

  -- (*ResponseRouter).Run on a router that is not nil. Its early return for no alerts gives what the
  -- loop gives there.
  unfoldable pub run_router :
      {E : Type 0}
      → ResponseRouter F E
      → List (Alert F)
      → World E
      → List Text × ResponseRouter F E × World E
  unfolding route
  run_router r alerts w =
      let (filtered, policy, w') = route r.on_dropped r.policy alerts w in
      let (errs, w'') =
        (if is_empty filtered then ([], w') else run_or_fail r.pipeline filtered w') in
      (errs, record r { policy = policy }, w'')
