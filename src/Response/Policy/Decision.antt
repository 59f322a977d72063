-- ===== src/Response/Policy/Decision.antt =====
-- What ShouldRespond decides, said of the configured lists instead of the sets that it keeps.
use mini_edr.Prelude.{
  Text, true, false, not, ◌||◌, List, [], ◌∷◌, is_empty, lookup, insert, lookup-insert, has, ◌≡◌,
  refl, ap, ◌∙◌, ◌↔◌, ◌⊎◌, ◌≤◌, is_nonpos, text_eq, arith, Bool-cases, inl, inr,
}
use mini_edr.Capturer.Info.{Time}
use mini_edr.Detection.Types.{Alert, World, time_now, alert_key}
use mini_edr.Detection.Dedup.{is_live}
use mini_edr.Detection.Dedup.Reference.{member}
use mini_edr.Response.Policy.{
  TextSet, PolicyEngine, severity_rank, set_of, set_or_nil, init_sets, in_set, has_entries,
  passes_rules, check_cooldown, decide, should_respond,
}

has-set_of :
    (k : Text) (rules : List Text) (set : TextSet)
    → has k (set_of rules set) ≡ has k set || member k rules
unfolding set_of member
has-set_of k [] set = ground arith
has-set_of k (r ∷ rules) set =
    ground (arith, has-set_of k rules (insert r tt set), lookup-insert r k tt set)

is_empty-insert : (r : Text) (set : TextSet) → is_empty (insert r tt set) ≡ false
unfolding insert
is_empty-insert r [] = refl
is_empty-insert r ((k, u) ∷ set) = ground arith

is_empty-set_of :
    (rules : List Text) (set : TextSet) → is_empty set ≡ false → is_empty (set_of rules set) ≡ false
unfolding set_of
is_empty-set_of [] set h = h
is_empty-set_of (r ∷ rules) set h = is_empty-set_of rules (insert r tt set) (is_empty-insert r set)

-- The sets of an engine are those of its lists: so once initOnce has run, unless the lists are
-- changed afterwards.
abbrev pub IsInSync : PolicyEngine → Type 0
IsInSync p =
    p.ready ≡ true
    → (p.allow_set ≡ set_or_nil p.allow_rules) × (p.deny_set ≡ set_or_nil p.deny_rules)

in_set-set_or_nil : (k : Text) (rules : List Text) → in_set k (set_or_nil rules) ≡ member k rules
unfolding in_set member lookup
in_set-set_or_nil k [] = refl
in_set-set_or_nil k (r ∷ rules) = ground (arith, has-set_of k (r ∷ rules) [])

has_entries-set_or_nil : (rules : List Text) → has_entries (set_or_nil rules) ≡ not (is_empty rules)
unfolding has_entries set_of
has_entries-set_or_nil [] = refl
has_entries-set_or_nil (r ∷ rules) =
    ground (arith, is_empty-set_of rules (insert r tt []) (is_empty-insert r []))

-- The policy: not denied, allowed if there is a list of allowed rules, severe enough if there is a
-- least severity, and not cooling down if there is a cooldown.
abbrev pub Admits : {F : Type 0} → PolicyEngine → Alert F → Time → Type 0
Admits p a checked =
    (member a.rule_id p.deny_rules ≡ false)
    × ((is_empty p.allow_rules ≡ true) ⊎ (member a.rule_id p.allow_rules ≡ true))
    × ((is_empty p.min_severity ≡ true) ⊎ (severity_rank p.min_severity ≤ severity_rank a.severity))
    × ((is_nonpos p.cooldown ≡ true) ⊎ (is_live checked (lookup (alert_key a) p.last) ≡ false))

-- The tests of a policy on the two sets and the two ranks, as one condition.
module _ {F : Type 0} where
  passes_rules_iff :
      (p : PolicyEngine) (a : Alert F)
      → (passes_rules p a ≡ true) ↔ (
          (in_set a.rule_id p.deny_set ≡ false)
          × ((has_entries p.allow_set ≡ false) ⊎ (in_set a.rule_id p.allow_set ≡ true))
          × ((is_empty p.min_severity ≡ true)
              ⊎ (severity_rank p.min_severity ≤ severity_rank a.severity)))
  unfolding passes_rules
  passes_rules_iff p a = ground arith

check_cooldown_iff :
    {E : Type 0} (p : PolicyEngine) (key : Text) (w : World E)
    → ((check_cooldown p key w).0 ≡ true) ↔ (is_live (w.clock w.reads) (lookup key p.last) ≡ false)
unfolding check_cooldown time_now
check_cooldown_iff p key w = ground arith

-- What initOnce leaves: the sets of the lists, and all else as it was.
record Ready (p q : PolicyEngine) : Type 0 where
  allow_set : q.allow_set ≡ set_or_nil p.allow_rules
  deny_set : q.deny_set ≡ set_or_nil p.deny_rules
  allow_rules : q.allow_rules ≡ p.allow_rules
  deny_rules : q.deny_rules ≡ p.deny_rules
  min_severity : q.min_severity ≡ p.min_severity
  cooldown : q.cooldown ≡ p.cooldown
  last : q.last ≡ p.last

init_sets-Ready : (p : PolicyEngine) → IsInSync p → Ready p (init_sets p)
unfolding init_sets
init_sets-Ready p sync = elim (Bool-cases p.ready) [
  | inl e ↦
      let same : init_sets p ≡ p = ground arith in
      rw same (record {
        allow_set = (sync e).0;
        deny_set = (sync e).1;
        allow_rules = refl;
        deny_rules = refl;
        min_severity = refl;
        cooldown = refl;
        last = refl;
      })
  | inr e ↦ record {
    allow_set = ground arith;
    deny_set = ground arith;
    allow_rules = ground arith;
    deny_rules = ground arith;
    min_severity = ground arith;
    cooldown = ground arith;
    last = ground arith;
  }
]

module _ {F : Type 0} where
  decide_iff :
      {E : Type 0} (p q : PolicyEngine) (a : Alert F) (w : World E)
      → Ready p q
      → ((decide q a w).0 ≡ true) ↔ Admits p a (w.clock w.reads)
  unfolding decide
  decide_iff p q a w r =
      let denied = ap (in_set a.rule_id) r.deny_set ∙ in_set-set_or_nil a.rule_id p.deny_rules in
      let allowed = ap (in_set a.rule_id) r.allow_set ∙ in_set-set_or_nil a.rule_id p.allow_rules in
      let listed = ap has_entries r.allow_set ∙ has_entries-set_or_nil p.allow_rules in
      ground
        (arith, passes_rules_iff q a, check_cooldown_iff q (alert_key a) w, denied, allowed, listed)

  -- ShouldRespond says yes exactly if the configured lists, the least severity and the cooldown admit
  -- the alert, at the first reading of the clock after the call; the lists must not have been
  -- changed since the first call.
  pub should_respond_iff :
      {E : Type 0} (p : PolicyEngine) (a : Alert F) (w : World E)
      → IsInSync p
      → ((should_respond p a w).0 ≡ true) ↔ Admits p a (w.clock w.reads)
  unfolding should_respond
  should_respond_iff p a w sync = decide_iff p (init_sets p) a w (init_sets-Ready p sync)

  -- The sets stay those of the lists.
  should_respond-IsInSync :
      {E : Type 0} (p : PolicyEngine) (a : Alert F) (w : World E)
      → IsInSync p
      → IsInSync (should_respond p a w).1
  unfolding should_respond decide check_cooldown
  should_respond-IsInSync p a w sync h =
      let r = init_sets-Ready p sync in
      (ground (arith, r.allow_set, r.allow_rules), ground (arith, r.deny_set, r.deny_rules))
