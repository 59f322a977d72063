-- ===== src/Detection/Enrich.antt =====
-- `enrichAlert` and `mergeMeta` of detection.go.
pub mod Merge
pub mod Complete
use mini_edr.Prelude.{
  ℕ, suc, ℤ, pos, ◌-ℤ◌, ◌*◌, Text, bytes, Bool, not, ◌&&◌, [], ◌∷◌, ◌++◌, Option, none, some,
  is_empty, if◌then◌else◌, ◌==◌, int_eq, Float64,
}
use mini_edr.Prelude.Strings.{decimal_ℤ}
use mini_edr.Capturer.Info.{Time, is_zero, TelemetryMeta, InfoData}
use mini_edr.Detection.Types.{Alert, RuleSpec, texts, World, time_now, severity_info}

-- t.UnixNano(): from Go's zero time to 1970 there are 62135596800 seconds.
abbrev pub unix_nano : Time → ℤ
unix_nano t = pos t -ℤ pos (62135596800 * 1000000000)

abbrev pub or_else : Text → Text → Text
or_else s t = if is_empty s then t else s

module _ {F : Type 0} ⦃fl : Float64 F⦄ where
  abbrev pub is_zero_float : F → Bool
  is_zero_float x = fl.eq x (fl.of_int (pos 0))

  unfoldable pub merge_meta : TelemetryMeta F → TelemetryMeta F → TelemetryMeta F
  merge_meta a b = record {
    host = or_else a.host b.host;
    agent_version = or_else a.agent_version b.agent_version;
    agent_build = or_else a.agent_build b.agent_build;
    session = or_else a.session b.session;
    timezone = or_else a.timezone b.timezone;
    captured_at = if is_zero a.captured_at then b.captured_at else a.captured_at;
    os = or_else a.os b.os;
    arch = or_else a.arch b.arch;
    capturer = or_else a.capturer b.capturer;
    interval_sec = if is_zero_float a.interval_sec then b.interval_sec else a.interval_sec;
    max_files = if a.max_files == pos 0 then b.max_files else a.max_files;
  }

-- The n-th call of IDSource gives `source n`; `none` is a nil function.
pub record IdSource : Type 0 where
  pub source : Option (ℕ → Text)
  pub calls : ℕ

-- fmt.Sprintf("%s-%d", a.RuleID, time.Now().UnixNano())
unfoldable pub generated_id : Text → Time → Text
generated_id rule_id t = rule_id ++ b'-' ∷ decimal_ℤ (unix_nano t)

module _ {F : Type 0} where
  abbrev pub set_rule_id : RuleSpec F → Alert F → Alert F
  set_rule_id r a = record a {
    rule_id = if is_empty a.rule_id then or_else r.id (bytes "unknown_rule") else a.rule_id;
  }

  unfoldable pub set_id : {E : Type 0} → IdSource → Alert F → World E → Alert F × IdSource × World E
  unfolding generated_id time_now
  set_id ids a w =
      if is_empty a.id
      then elim ids.source [
        | some source ↦
            (record a { id = source ids.calls }, record ids { calls = suc ids.calls }, w)
        | none ↦ (let (t, w') = time_now w in (record a { id = generated_id a.rule_id t }, ids, w'))
      ]
      else (a, ids, w)

  unfoldable pub set_at : {E : Type 0} → InfoData F → Alert F → World E → Alert F × World E
  unfolding time_now
  set_at info a w =
      if is_zero a.at
      then (if not (is_zero info.meta.captured_at)
          then (record a { at = info.meta.captured_at }, w)
          else (let (t, w') = time_now w in (record a { at = t }, w')))
      else (a, w)

  -- `if a.Source == "" { a.Source = a.Meta.Capturer; if a.Source == "" { a.Source = "unknown" } }`
  abbrev pub set_source : Alert F → Alert F
  set_source a = record a {
    source = if is_empty a.source then or_else a.meta.capturer (bytes "unknown") else a.source;
  }

  abbrev pub set_severity : RuleSpec F → Alert F → Alert F
  set_severity r a = record a {
    severity = if is_empty a.severity then or_else r.severity severity_info else a.severity;
  }

  abbrev pub set_title : RuleSpec F → Alert F → Alert F
  set_title r a = record a {
    title = if is_empty a.title then or_else r.title a.rule_id else a.title;
  }

  -- `if a.Source == "" && r.Source != "" { a.Source = r.Source }`
  abbrev pub set_rule_source : RuleSpec F → Alert F → Alert F
  set_rule_source r a = record a {
    source = if is_empty a.source && not (is_empty r.source) then r.source else a.source;
  }

  unfoldable pub set_evidence : RuleSpec F → Alert F → Alert F
  set_evidence r a = elim a.evidence [
    | none ↦
        (if is_empty r.tags
          then a
          else record a { evidence = some ((bytes "tags", texts r.tags) ∷ []) })
    | some evidence ↦ a
  ]

  -- fmt.Sprintf("%s|%s|%s", a.RuleID, a.Source, a.Meta.Session)
  unfoldable pub default_key : Alert F → Text
  default_key a = a.rule_id ++ b'|' ∷ (a.source ++ b'|' ∷ a.meta.session)

  unfoldable pub set_dedup_key : RuleSpec F → Alert F → Alert F
  unfolding default_key
  set_dedup_key r a = record a {
    dedup_key = if is_empty a.dedup_key then or_else r.dedup_key (default_key a) else a.dedup_key;
  }

  -- The rest of the method, once the alert has its rule, its identifier and its time.
  unfoldable pub fill : ⦃fl : Float64 F⦄ → InfoData F → RuleSpec F → Alert F → Alert F
  unfolding merge_meta set_evidence set_dedup_key
  fill info r a =
      let merged : Alert F = record a { meta = merge_meta a.meta info.meta } in
      set_dedup_key r
        (set_evidence r (set_rule_source r (set_title r (set_severity r (set_source merged)))))

  unfoldable pub enrich_alert :
      {E : Type 0}
      → ⦃fl : Float64 F⦄ → IdSource
      → Alert F
      → InfoData F
      → RuleSpec F
      → World E
      → Alert F × IdSource × World E
  unfolding set_id set_at fill
  enrich_alert ids a info r w =
      let (a₁, ids', w₁) = set_id ids (set_rule_id r a) w in
      let (a₂, w₂) = set_at info a₁ w₁ in (fill info r a₂, ids', w₂)
