-- ===== src/Dashboard/Rules/Twice.antt =====
-- normalizeRulesConfig of dashboard/dashboard.go on rules that it gave.
use mini_edr.Prelude.Strings.{trim_space, to_lower, decimal, lower_byte, is_space}
use mini_edr.Prelude.Strings.Trimmed.{
  IsTrimmed, trim_space-IsTrimmed, IsTrimmed-same, trim_space_idem, NoSpace, NoSpace-IsTrimmed,
  decimal-NoSpace,
}
use mini_edr.Prelude.{
  ℕ, suc, Text, text_eq, text_beq, bytes, true, false, List, [], ◌∷◌, ◌++◌, ◌≡◌, ◌≢◌, refl, ap,
  arith, All, All-append, is_empty, Bool-cases, inl, inr,
}
use mini_edr.Detection.Types.{Severity, severity_info}
use mini_edr.Dashboard.Rules.{
  RuleDefinition, is_op, is_severity, normalize_op, normalize_severity, id_or_default,
  title_or_default, normalize_rule, normalize_rules_from, normalize_rules_config,
}
use mini_edr.Dashboard.Rules.Normal.{id_or_default_full, title_or_default_full}

no_space : NoSpace (bytes "custom.rule.")
unfolding is_space
no_space = ground arith

normalize_op-known : (op : Text) → is_op (trim_space op) ≡ true → normalize_op op ≡ trim_space op
unfolding normalize_op
normalize_op-known op known = rw known

normalize_op-other : (op : Text) → is_op (trim_space op) ≡ false → normalize_op op ≡ bytes ">="
unfolding normalize_op
normalize_op-other op other = rw other

normalize_severity-known :
    (s : Severity) → is_severity (to_lower s) ≡ true → normalize_severity s ≡ to_lower s
unfolding normalize_severity
normalize_severity-known s known = rw known

normalize_severity-other :
    (s : Severity) → is_severity (to_lower s) ≡ false → normalize_severity s ≡ severity_info
unfolding normalize_severity
normalize_severity-other s other = rw other

id_or_default-IsTrimmed : (i : ℕ) (id : Text) → IsTrimmed id → IsTrimmed (id_or_default i id)
unfolding id_or_default
id_or_default-IsTrimmed i id h = elim (Bool-cases (is_empty id)) [
  | inl empty ↦ rw empty (
      NoSpace-IsTrimmed (bytes "custom.rule." ++ decimal (suc i))
        (All-append _ (bytes "custom.rule.") (decimal (suc i)) no_space (decimal-NoSpace (suc i))))
  | inr given ↦ rw given h
]

normalize_op_default : normalize_op (bytes ">=") ≡ bytes ">="
unfolding normalize_op trim_space text_beq
normalize_op_default = refl

normalize_op_idem : (op : Text) → normalize_op (normalize_op op) ≡ normalize_op op
normalize_op_idem op = elim (Bool-cases (is_op (trim_space op))) [
  | inl known ↦
      rw (normalize_op-known op known) (
        rw (normalize_op-known (trim_space op) (rw (trim_space_idem op) known))
          (trim_space_idem op))
  | inr other ↦ rw (normalize_op-other op other) normalize_op_default
]

lower_byte_idem : (c : ℕ) → lower_byte (lower_byte c) ≡ lower_byte c
unfolding lower_byte
lower_byte_idem c = ground arith

to_lower_idem : (s : Text) → to_lower (to_lower s) ≡ to_lower s
unfolding to_lower
to_lower_idem [] = refl
to_lower_idem (c ∷ s) = rw (lower_byte_idem c) (ap (◌∷◌ (lower_byte c)) (to_lower_idem s))

normalize_severity_default : normalize_severity severity_info ≡ severity_info
unfolding normalize_severity to_lower lower_byte text_beq
normalize_severity_default = refl

normalize_severity_idem :
    (s : Severity) → normalize_severity (normalize_severity s) ≡ normalize_severity s
normalize_severity_idem s = elim (Bool-cases (is_severity (to_lower s))) [
  | inl known ↦
      rw (normalize_severity-known s known)
        (rw (normalize_severity-known (to_lower s) (rw (to_lower_idem s) known)) (to_lower_idem s))
  | inr other ↦ rw (normalize_severity-other s other) normalize_severity_default
]

title_or_default-IsTrimmed :
    (id name title : Text)
    → IsTrimmed id
    → IsTrimmed name
    → IsTrimmed title
    → IsTrimmed (title_or_default id name title)
unfolding title_or_default
title_or_default-IsTrimmed id name title hi hn ht = elim (Bool-cases (is_empty title)) [
  | inl no_title ↦ elim (Bool-cases (is_empty id)) [
    | inl no_id ↦ elim (Bool-cases (is_empty name)) [
      | inl no_name ↦ rw (no_title, no_id, no_name) ht
      | inr named ↦ rw (no_title, no_id, named) hn
    ]
    | inr has_id ↦ rw (no_title, has_id) hi
  ]
  | inr titled ↦ rw titled ht
]

id_or_default-given : (i : ℕ) (id : Text) → id ≢ [] → id_or_default i id ≡ id
unfolding id_or_default
id_or_default-given i [] h = absurd (h refl)
id_or_default-given i (c ∷ id) h = refl

title_or_default-given :
    (id name title : Text) → title ≢ [] → title_or_default id name title ≡ title
unfolding title_or_default
title_or_default-given id name [] h = absurd (h refl)
title_or_default-given id name (c ∷ title) h = refl

module _ {F : Type 0} where
  -- A rule that normalizing leaves alone, whatever its place
  abbrev pub IsFixed : RuleDefinition F → Type 0
  IsFixed r = (i : ℕ) → normalize_rule i r ≡ r

  normalize_rule-IsFixed : (i : ℕ) (r : RuleDefinition F) → IsFixed (normalize_rule i r)
  unfolding normalize_rule
  normalize_rule-IsFixed i r j =
      let id = id_or_default i (trim_space r.id) in
      let name = trim_space r.metric_name in
      let title = title_or_default id name (trim_space r.title) in
      let id_trimmed = id_or_default-IsTrimmed i (trim_space r.id) (trim_space-IsTrimmed r.id) in
      let id_full = id_or_default_full i (trim_space r.id) in
      let title_trimmed =
        title_or_default-IsTrimmed id name (trim_space r.title) id_trimmed
          (trim_space-IsTrimmed r.metric_name) (trim_space-IsTrimmed r.title) in
      let title_full = title_or_default_full id name (trim_space r.title) id_full in
      rw (
        IsTrimmed-same id id_trimmed,
        id_or_default-given j id id_full,
        trim_space_idem r.metric_name,
        IsTrimmed-same title title_trimmed,
        title_or_default-given id name title title_full,
        normalize_severity_idem r.severity,
        normalize_op_idem r.op,
        trim_space_idem r.message,
        trim_space_idem r.source,
      )

  -- Rules that normalizing leaves alone and keeps
  abbrev pub AreFixed : List (RuleDefinition F) → Type 0
  AreFixed rules = All (λ r. IsFixed r × (is_empty r.metric_name ≡ false)) rules

  normalize_rules_from-AreFixed :
      (i : ℕ) (rules : List (RuleDefinition F)) → AreFixed (normalize_rules_from i rules)
  unfolding normalize_rules_from
  normalize_rules_from-AreFixed i [] = tt
  normalize_rules_from-AreFixed i (r ∷ rules) =
      elim (Bool-cases (is_empty (normalize_rule i r).metric_name)) [
        | inl empty ↦ rw empty (normalize_rules_from-AreFixed (suc i) rules)
        | inr named ↦
            rw named
              ((normalize_rule-IsFixed i r, named), normalize_rules_from-AreFixed (suc i) rules)
      ]

  AreFixed-same :
      (i : ℕ) (rules : List (RuleDefinition F))
      → AreFixed rules
      → normalize_rules_from i rules ≡ rules
  unfolding normalize_rules_from
  AreFixed-same i [] h = refl
  AreFixed-same i (r ∷ rules) h = rw (h.0.0 i, h.0.1) (ap (◌∷◌ r) (AreFixed-same (suc i) rules h.1))

  -- The rules that normalizeRulesConfig gives, with the identifiers and titles that it made up, are
  -- left as they are when they are normalized again.
  pub normalize_rules_config_idem :
      (rules : List (RuleDefinition F))
      → normalize_rules_config (normalize_rules_config rules) ≡ normalize_rules_config rules
  unfolding normalize_rules_config
  normalize_rules_config_idem rules =
      AreFixed-same 0 (normalize_rules_from 0 rules) (normalize_rules_from-AreFixed 0 rules)
