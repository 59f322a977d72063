-- ===== src/Detection/Enrich/Complete.antt =====
-- What enrichAlert of detection.go fills in.
use mini_edr.Prelude.{
  ℕ, Text, false, ◌++◌, ◌∷◌, [], some, is_empty, ◌≡◌, refl, arith, ap, sym, ◌∙◌, Float64, inl, inr,
  Option-cases,
}
use mini_edr.Prelude.Strings.{decimal_ℤ}
use mini_edr.Capturer.Info.{InfoData}
use mini_edr.Detection.Types.{Alert, RuleSpec, World}
use mini_edr.Detection.Enrich.{
  IdSource, unix_nano, set_rule_id, merge_meta, set_source, set_severity, set_title,
  set_rule_source, set_id, set_at, set_evidence, set_dedup_key, fill, enrich_alert,
}

pub record IsComplete {F : Type 0} (a : Alert F) : Type 0 where
  pub rule_id : is_empty a.rule_id ≡ false
  pub id : is_empty a.id ≡ false
  pub source : is_empty a.source ≡ false
  pub severity : is_empty a.severity ≡ false
  pub title : is_empty a.title ≡ false
  pub dedup_key : is_empty a.dedup_key ≡ false

-- A source of identifiers that never gives the empty one.
abbrev pub GivesIds : IdSource → Type 0
GivesIds ids = (f : ℕ → Text) → ids.source ≡ some f → (n : ℕ) → is_empty (f n) ≡ false

is_empty-append_cons : (s t : Text) (c : ℕ) → is_empty (s ++ c ∷ t) ≡ false
is_empty-append_cons [] t c = refl
is_empty-append_cons (b ∷ s) t c = refl

module _ {F E : Type 0} where
  set_id_filled :
      (ids : IdSource) (a : Alert F) (w : World E)
      → GivesIds ids
      → is_empty (set_id ids a w).0.id ≡ false
  unfolding set_id
  set_id_filled ids a w gives = elim (Option-cases ids.source) [
    | inl e ↦
        ground
          (arith, is_empty-append_cons a.rule_id (decimal_ℤ (unix_nano (w.clock w.reads))) b'-')
    | inr (f, e) ↦ ground (arith, gives f e ids.calls)
  ]

  set_id-rule_id :
      (ids : IdSource) (a : Alert F) (w : World E) → (set_id ids a w).0.rule_id ≡ a.rule_id
  unfolding set_id
  set_id-rule_id ids a w = ground arith

  set_at-id :
      (info : InfoData F) (a : Alert F) (w : World E)
      → ((set_at info a w).0.id ≡ a.id) × ((set_at info a w).0.rule_id ≡ a.rule_id)
  unfolding set_at
  set_at-id info a w = ground arith

module _ {F : Type 0} ⦃fl : Float64 F⦄ where
  fill-IsComplete :
      (info : InfoData F) (r : RuleSpec F) (a : Alert F)
      → is_empty a.rule_id ≡ false
      → is_empty a.id ≡ false
      → IsComplete (fill info r a)
  unfolding fill
  fill-IsComplete info r a h h' = ground arith

  set_rule_source_idle :
      (r : RuleSpec F) (a : Alert F) → is_empty a.source ≡ false → set_rule_source r a ≡ a
  set_rule_source_idle r a h = ground arith

  fill-rule_source :
      (a : Alert F) (info : InfoData F) (r : RuleSpec F) (source : Text)
      → fill info (record r { source = source }) a ≡ fill info r a
  unfolding fill
  fill-rule_source a info r source =
      let b : Alert F =
        set_title r
          (set_severity r (set_source (record a { meta = merge_meta a.meta info.meta }))) in
      let filled : is_empty b.source ≡ false = ground arith in
      ap (λ (c : Alert F). set_dedup_key r (set_evidence r c))
        (set_rule_source_idle (record r { source = source }) b filled
          ∙ sym (set_rule_source_idle r b filled))

module _ {F E : Type 0} ⦃fl : Float64 F⦄ where
  -- After `enrichAlert` an alert has a rule, an identifier, a source, a severity, a title and a key,
  -- whatever of these the rule had set.
  pub enrich_alert-IsComplete :
      (ids : IdSource) (a : Alert F) (info : InfoData F) (r : RuleSpec F) (w : World E)
      → GivesIds ids
      → IsComplete (enrich_alert ids a info r w).0
  unfolding enrich_alert
  enrich_alert-IsComplete ids a info r w gives =
      let ruled : Alert F = set_rule_id r a in
      let named = set_id ids ruled w in
      let timed = set_at info named.0 named.2 in
      fill-IsComplete info r timed.0
        (ground (arith, set_id-rule_id ids ruled w, set_at-id info named.0 named.2))
        (ground (arith, set_id_filled ids ruled w gives, set_at-id info named.0 named.2))

  -- The source that a rule names never reaches an alert: `enrichAlert` gives the same alert for every
  -- value of it.
  pub enrich_alert-rule_source :
      (ids : IdSource) (a : Alert F) (info : InfoData F) (r : RuleSpec F) (w : World E)
      (source : Text)
      → enrich_alert ids a info (record r { source = source }) w ≡ enrich_alert ids a info r w
  unfolding enrich_alert
  enrich_alert-rule_source ids a info r w source =
      let named = set_id ids (set_rule_id r a) w in
      let timed = set_at info named.0 named.2 in
      ap (λ (b : Alert F). (b, named.1, timed.1)) (fill-rule_source timed.0 info r source)
