-- ===== src/Response/Killer.antt =====
-- ProcessKillerResponder of response_actions.go.
pub mod Targets
use mini_edr.Prelude.Strings.{decimal_ℤ}
use mini_edr.Prelude.{
  ℤ, Text, text_eq, bytes, Bool, List, [], ◌∷◌, ◌++◌, map, Option, none, some, GoMap, lookup,
  is_empty, gather, if◌then◌else◌, Float64,
}
use mini_edr.Detection.Types.{
  Alert, AnyValue, scalar, ints, int32s, int64s, floats, anys, Scalar, int, int32, int64, float64,
  World,
}

-- A call outside the program: its error, and the world after it.
abbrev pub Action : Type 0 → Type 0
Action E = ℤ → World E → Option Text × World E

-- `none` is a nil KillFn. `find_process` and `kill_process` are os.FindProcess and (*os.Process).Kill.
pub record ProcessKiller (E : Type 0) : Type 0 where
  pub dry_run : Bool
  pub kill_fn : Option (Action E)
  pub find_process : Action E
  pub kill_process : Action E

abbrev pub single_pid : Option ℤ → List ℤ
single_pid none = []
single_pid (some pid) = pid ∷ []

module _ {F : Type 0} ⦃fl : Float64 F⦄ where
  abbrev pub coerce_scalar : Scalar F → Option ℤ
  coerce_scalar (int n) = some n
  coerce_scalar (int32 n) = some n
  coerce_scalar (int64 n) = some n
  coerce_scalar (float64 x) = some (fl.trunc x)
  coerce_scalar _ = none

  -- coercePID; a missing entry is the nil value, which is no number.
  abbrev pub coerce_pid : Option (AnyValue F) → Option ℤ
  coerce_pid (some (scalar v)) = coerce_scalar v
  coerce_pid _ = none

  -- The numbers under "pids".
  unfoldable pub listed_pids : Option (AnyValue F) → List ℤ
  listed_pids (some (ints ns)) = ns
  listed_pids (some (int32s ns)) = ns
  listed_pids (some (int64s ns)) = ns
  listed_pids (some (floats xs)) = map fl.trunc xs
  listed_pids (some (anys vs)) = gather coerce_scalar vs
  listed_pids _ = []

  unfoldable pub extract_alert_pids : Option (GoMap Text (AnyValue F)) → List ℤ
  extract_alert_pids none = []
  extract_alert_pids (some evidence) =
      single_pid (coerce_pid (lookup (bytes "pid") evidence))
      ++ listed_pids (lookup (bytes "pids") evidence)

-- fmt.Errorf("<what> process %d: %w", pid, err)
abbrev pub wrap_error : Text → ℤ → Option Text → Option Text
wrap_error what pid none = none
wrap_error what pid (some err) =
    some (what ++ bytes " process " ++ decimal_ℤ pid ++ bytes ": " ++ err)

module _ {E : Type 0} where
  -- (*ProcessKillerResponder).kill without a KillFn
  unfoldable pub os_kill : ProcessKiller E → Action E
  os_kill r pid w =
      let (found, w₁) = r.find_process pid w in
      let (killed, w₂) = r.kill_process pid w₁ in
      elim found [
        | some err ↦ (wrap_error (bytes "find") pid (some err), w₁)
        | none ↦ (wrap_error (bytes "kill") pid killed, w₂)
      ]

  unfoldable pub kill : ProcessKiller E → Action E
  kill r pid w = elim r.kill_fn [ some f ↦ f pid w | none ↦ os_kill r pid w ]

  -- `if r.DryRun { continue }` before the kill
  unfoldable pub kill_unless_dry : ProcessKiller E → Action E
  kill_unless_dry r pid w = if r.dry_run then (none, w) else kill r pid w

  -- The loop over the identifiers, which ends at the first error.
  unfoldable pub kill_loop : ProcessKiller E → List ℤ → World E → Option Text × World E
  kill_loop r [] w = (none, w)
  kill_loop r (pid ∷ pids) w =
      let (failed, w₁) = kill_unless_dry r pid w in
      let rest = kill_loop r pids w₁ in elim failed [ some err ↦ (some err, w₁) | none ↦ rest ]

  -- (*ProcessKillerResponder).Handle
  unfoldable pub kill_handle :
      {F : Type 0} → ⦃fl : Float64 F⦄ → ProcessKiller E → Alert F → World E → Option Text × World E
  kill_handle r a w =
      let pids = extract_alert_pids a.evidence in
      if is_empty pids
      then (some (bytes "process_kill: no pid in alert evidence"), w)
      else kill_loop r pids w
