-- ===== src/Dashboard/Rules/Normal.antt =====
-- Which rules normalizeRulesConfig of dashboard/dashboard.go gives.
use mini_edr.Prelude.Strings.{trim_space}
use mini_edr.Prelude.{
  ℕ, suc, Text, text_eq, text_beq, true, List, [], ◌∷◌, ◌≡◌, ◌≢◌, arith, All, is_empty, Bool-cases,
  inl, inr,
}
use mini_edr.Dashboard.Rules.{
  RuleDefinition, is_op, is_severity, normalize_op, normalize_severity, id_or_default,
  title_or_default, normalize_rule, normalize_rules_from, normalize_rules_config,
}

pub id_or_default_full : (i : ℕ) (id : Text) → id_or_default i id ≢ []
unfolding id_or_default
id_or_default_full i id = ground arith

pub title_or_default_full : (id name title : Text) → id ≢ [] → title_or_default id name title ≢ []
unfolding title_or_default
title_or_default_full id name title h = ground (arith, h)

normalize_op-known : (op : Text) → is_op (normalize_op op) ≡ true
unfolding normalize_op text_beq
normalize_op-known op = ground arith

normalize_severity-known : (s : Text) → is_severity (normalize_severity s) ≡ true
unfolding normalize_severity text_beq
normalize_severity-known s = ground arith

module _ {F : Type 0} where
  -- A rule that can be built: it has an identifier, a title and a metric, and its operator and its
  -- severity are known ones.
  abbrev pub IsNormal : RuleDefinition F → Type 0
  IsNormal r =
      (r.id ≢ [])
      × (r.title ≢ [])
      × (r.metric_name ≢ [])
      × (is_op r.op ≡ true)
      × (is_severity r.severity ≡ true)

  normalize_rule-IsNormal :
      (i : ℕ) (r : RuleDefinition F)
      → (normalize_rule i r).metric_name ≢ []
      → IsNormal (normalize_rule i r)
  unfolding normalize_rule
  normalize_rule-IsNormal i r has_metric = (
    id_or_default_full i (trim_space r.id),
    title_or_default_full (id_or_default i (trim_space r.id)) _ _
        (id_or_default_full i (trim_space r.id)),
    has_metric,
    normalize_op-known r.op,
    normalize_severity-known r.severity,
  )

  normalize_rules_from-IsNormal :
      (i : ℕ) (rules : List (RuleDefinition F)) → All IsNormal (normalize_rules_from i rules)
  unfolding normalize_rules_from
  normalize_rules_from-IsNormal i [] = tt
  normalize_rules_from-IsNormal i (r ∷ rules) =
      elim (Bool-cases (is_empty (normalize_rule i r).metric_name)) [
        | inl empty ↦ rw empty (normalize_rules_from-IsNormal (suc i) rules)
        | inr named ↦ rw named (
          normalize_rule-IsNormal i r (ground (arith, named)),
          normalize_rules_from-IsNormal (suc i) rules,
        )
      ]

  -- Whatever a user saves, the rules that normalizeRulesConfig gives have an identifier, a title and a
  -- metric, one of the six operators and one of the five severities.
  normalize_rules_config-IsNormal :
      (rules : List (RuleDefinition F)) → All IsNormal (normalize_rules_config rules)
  unfolding normalize_rules_config
  normalize_rules_config-IsNormal rules = normalize_rules_from-IsNormal 0 rules
