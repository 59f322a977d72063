-- ===== src/Response/Policy.antt =====
-- PolicyEngine of response.go. The mutex makes a call one step.
pub mod Decision
pub mod Cooldown
use mini_edr.Prelude.{
  ℕ, ℤ, Text, Bool, true, false, not, ◌&&◌, List, [], ◌∷◌, Option, none, some, is_empty, is_some,
  GoMap, has, lookup, insert, is_nonpos, ltb, if◌then◌else◌, ◌==◌, text_eq,
}
use mini_edr.Capturer.Info.{Time}
use mini_edr.Detection.Types.{
  Severity, Alert, World, time_now, add_duration, alert_key, severity_info, severity_low,
  severity_medium, severity_high, severity_critical,
}
use mini_edr.Detection.Dedup.{is_live}

-- map[string]struct{}
abbrev pub TextSet : Type 0
TextSet = GoMap Text (Unit {0})

-- `ready` says that initOnce has run; a nil set is `none`, a nil map `last` reads as the empty one.
pub record PolicyEngine : Type 0 where
  pub min_severity : Severity
  pub allow_rules : List Text
  pub deny_rules : List Text
  pub cooldown : ℤ
  pub last : GoMap Text Time
  pub allow_set : Option TextSet
  pub deny_set : Option TextSet
  pub ready : Bool

unfoldable pub severity_rank : Severity → ℕ
severity_rank s =
    if s == severity_critical
    then 5
    else if s == severity_high
    then 4
    else if s == severity_medium
    then 3
    else if s == severity_low
    then 2
    else if s == severity_info
    then 1
    else 0

unfoldable pub set_of : List Text → TextSet → TextSet
set_of [] set = set
set_of (r ∷ rules) set = set_of rules (insert r tt set)

abbrev pub set_or_nil : List Text → Option TextSet
set_or_nil rules = if is_empty rules then none else some (set_of rules [])

unfoldable pub init_sets : PolicyEngine → PolicyEngine
init_sets p = if p.ready then p else (record p {
  allow_set = set_or_nil p.allow_rules;
  deny_set = set_or_nil p.deny_rules;
  ready = true;
})

unfoldable pub in_set : Text → Option TextSet → Bool
in_set val none = false
in_set val (some set) = has val set

-- `len(p.allowSet) > 0`
unfoldable pub has_entries : Option TextSet → Bool
has_entries none = false
has_entries (some set) = not (is_empty set)

-- The cooldown: `last` is read first, and the clock only if the key has an entry.
unfoldable pub check_cooldown :
    {E : Type 0} → PolicyEngine → Text → World E → Bool × PolicyEngine × World E
check_cooldown p key w =
    let entry = lookup key p.last in
    let (checked, w₁) = time_now w in
    let w' = if is_some entry then w₁ else w in
    let (stamped, w₂) = time_now w' in
    if is_live checked entry
    then (false, p, w₁)
    else (true, record p { last = insert key (add_duration stamped p.cooldown) p.last }, w₂)

module _ {F : Type 0} where
  -- The three tests before the cooldown, in the order of the code.
  unfoldable pub passes_rules : PolicyEngine → Alert F → Bool
  passes_rules p a =
      if in_set a.rule_id p.deny_set
      then false
      else if has_entries p.allow_set && not (in_set a.rule_id p.allow_set)
      then false
      else if not (is_empty p.min_severity)
          && ltb (severity_rank a.severity) (severity_rank p.min_severity)
      then false
      else true

  -- ShouldRespond once the sets are there.
  unfoldable pub decide :
      {E : Type 0} → PolicyEngine → Alert F → World E → Bool × PolicyEngine × World E
  decide p a w =
      if not (passes_rules p a)
      then (false, p, w)
      else if is_nonpos p.cooldown
      then (true, p, w)
      else check_cooldown p (alert_key a) w

  -- (*PolicyEngine).ShouldRespond on an engine that is not nil
  unfoldable pub should_respond :
      {E : Type 0} → PolicyEngine → Alert F → World E → Bool × PolicyEngine × World E
  should_respond p a w = decide (init_sets p) a w
