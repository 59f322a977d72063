-- ===== src/Detection/Responders.antt =====
-- AlertResponder and ResponderPipeline of detection.go.
pub mod Deliveries
use mini_edr.Prelude.{Text, bytes, List, [], ◌∷◌, ◌++◌, Option, none, some}
use mini_edr.Prelude.Fallible.{Fallible, value, failure}
use mini_edr.Detection.Types.{Alert, World}

-- The interface: what a responder does to the world, and its error, `none` for nil.
pub record Responder (F E : Type 0) : Type 0 where
  pub name : Text
  pub handle : Alert F → World E → Option Text × World E

-- LogResponder.Handle: `encode` is the JSON of an alert, and `none` a nil writer. An encoder writes a
-- value and a line feed in one call.
unfoldable pub log_encoded :
    {E : Type 0}
    → (Text → World E → Option Text × World E)
    → Fallible Text
    → World E
    → Option Text × World E
log_encoded write (failure err) w = (some err, w)
log_encoded write (value text) w = write (text ++ bytes "\n") w

unfoldable pub log_handle :
    {F E : Type 0}
    → (Alert F → Fallible Text)
    → Option (Text → World E → Option Text × World E)
    → Alert F
    → World E
    → Option Text × World E
log_handle encode none a w = (some (bytes "log responder: writer is nil"), w)
log_handle encode (some write) a w = log_encoded write (encode a) w

unfoldable pub log_responder :
    {F E : Type 0}
    → (Alert F → Fallible Text)
    → Option (Text → World E → Option Text × World E)
    → Responder F E
log_responder encode out = record { name = bytes "log"; handle = log_handle encode out }

-- A nil responder of the slice is `none`.
abbrev pub ResponderPipeline : Type 0 → Type 0 → Type 0
ResponderPipeline F E = List (Option (Responder F E))

-- fmt.Errorf("%s: %w", r.Name(), err), if there is an error
unfoldable pub named_error : Text → Option Text → List Text
named_error name none = []
named_error name (some e) = (name ++ (bytes ": " ++ e)) ∷ []

module _ {F E : Type 0} where
  -- The inner loop of Run, over the responders.
  unfoldable pub notify_all : ResponderPipeline F E → Alert F → World E → List Text × World E
  unfolding named_error
  notify_all [] a w = ([], w)
  notify_all (none ∷ rs) a w = notify_all rs a w
  notify_all (some r ∷ rs) a w =
      let (err, w') = r.handle a w in
      let (errs, w'') = notify_all rs a w' in (named_error r.name err ++ errs, w'')

  -- (*ResponderPipeline).Run on a pipeline that is not nil. Its early return for no responders or no
  -- alerts gives what the loops give there.
  unfoldable pub run : ResponderPipeline F E → List (Alert F) → World E → List Text × World E
  unfolding notify_all
  run rs [] w = ([], w)
  run rs (a ∷ alerts) w =
      let (errs, w') = notify_all rs a w in
      let (errs', w'') = run rs alerts w' in (errs ++ errs', w'')
