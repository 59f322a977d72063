-- ===== src/Tests/Settings.antt =====
-- The settings of dashboard/dashboard.go: instances.
use mini_edr.Prelude.Fallible.{Fallible, value, failure}
use mini_edr.Prelude.Int.{int_beq}
use mini_edr.Prelude.{
  sym, subst, ap, ℤ, pos, int_eq, ◌==◌, Text, text_eq, text_beq, text_beq_iff, bytes, Bool, true,
  false, ◌&&◌, if◌then◌else◌, List, [], ◌∷◌, ◌++◌, Option, none, some, ◌≡◌, ◌≢◌, refl, All, arith,
  int_floats,
}
use mini_edr.Dashboard.Auth.{AuthRequest}
use mini_edr.Dashboard.Rules.{
  RuleDefinition, normalize_rules_config, normalize_rules_from, normalize_rule, id_or_default,
  title_or_default, normalize_op, normalize_severity, is_op, is_severity, rebuild_detector,
}
use mini_edr.Prelude.Strings.{trim_space, to_upper, to_lower}
use mini_edr.Dashboard.Settings.{
  Files, Settings, new_settings, load_rules_config, save_rules_config, write_encoded, put_rules,
  rebuild,
}
use mini_edr.Dashboard.Settings.Defaults.{default_rules_config}
use mini_edr.Dashboard.Settings.Handlers.{
  get, post, encoded, serve_rules, handle_rules, saved_rules,
}
use mini_edr.Dashboard.Settings.InForce.{
  Event, rules_request, metrics_request, ioc_set, captured, InForce, after_all, settings-InForce,
}
use mini_edr.Dashboard.Settings.Restart.{ReadsBack, load_rules_config-serve_rules}
use mini_edr.Dashboard.Settings.Refused.{Spares, handle_rules-Spares}

-- The rule that the files of these tests can hold
abbrev kept : RuleDefinition ℤ
kept = record {
  id = bytes "r1";
  title = bytes "busy";
  severity = bytes "low";
  metric_name = bytes "cpu.total_pct";
  op = bytes ">=";
  value = pos 5;
  message = bytes "m";
  source = bytes "CPU";
  enabled = true;
}

abbrev is_kept : RuleDefinition ℤ → Bool
is_kept r =
    text_beq r.id kept.id
    && text_beq r.title kept.title
    && text_beq r.severity kept.severity
    && text_beq r.metric_name kept.metric_name
    && text_beq r.op kept.op
    && (r.value == kept.value)
    && text_beq r.message kept.message
    && text_beq r.source kept.source
    && r.enabled

is_kept_same : (r : RuleDefinition ℤ) → is_kept r ≡ true → r ≡ kept
is_kept_same r h =
    let id : r.id ≡ kept.id = ground (arith, text_beq_iff r.id kept.id) in
    let title : r.title ≡ kept.title = ground (arith, text_beq_iff r.title kept.title) in
    let severity : r.severity ≡ kept.severity =
      ground (arith, text_beq_iff r.severity kept.severity) in
    let metric_name : r.metric_name ≡ kept.metric_name =
      ground (arith, text_beq_iff r.metric_name kept.metric_name) in
    let op : r.op ≡ kept.op = ground (arith, text_beq_iff r.op kept.op) in
    let threshold : r.value ≡ kept.value = ground (arith, int_eq.same_iff r.value kept.value) in
    let message : r.message ≡ kept.message = ground (arith, text_beq_iff r.message kept.message) in
    let source : r.source ≡ kept.source = ground (arith, text_beq_iff r.source kept.source) in
    let enabled : r.enabled ≡ true = ground arith in
    λ i. record {
      id = id i;
      title = title i;
      severity = severity i;
      metric_name = metric_name i;
      op = op i;
      value = threshold i;
      message = message i;
      source = source i;
      enabled = enabled i;
    }

abbrev encode_kept : List (RuleDefinition ℤ) → Fallible Text
encode_kept (r ∷ []) = if is_kept r then value (bytes "r1") else failure (bytes "other")
encode_kept rules = failure (bytes "other")

-- One file, which holds the last text that was written
abbrev one_file : Files ℤ (Option Text)
one_file = record {
  read_file = λ path w. w;
  write_file = λ path text w. (none, some text);
  encode_rules = encode_kept;
  decode_rules = λ defaults text. if text_beq text (bytes "r1\n") then some (kept ∷ []) else none;
  encode_metrics = λ metrics. failure (bytes "no metrics");
  decode_metrics = λ text. none;
}

encoded_if :
    (b : Bool) (text : Text)
    → (if b then value (bytes "r1") else failure (bytes "other")) ≡ value text
    → (b ≡ true) × (text ≡ bytes "r1")
encoded_if true text e = (refl, cc)
encoded_if false text e = cc

decode-encode_kept :
    (cfg : List (RuleDefinition ℤ)) (text : Text)
    → encode_kept cfg ≡ value text
    → (if text_beq (text ++ bytes "\n") (bytes "r1\n") then some (kept ∷ []) else none) ≡ some cfg
unfolding text_beq
decode-encode_kept [] text e = cc
decode-encode_kept (r ∷ []) text e =
    let (same, text_kept) = encoded_if (is_kept r) text e in
    subst
      (λ t.
        (if text_beq (t ++ bytes "\n") (bytes "r1\n") then some (kept ∷ []) else none)
        ≡ some (r ∷ []))
      (sym text_kept) (ap (λ k. some (k ∷ [])) (sym (is_kept_same r same)))
decode-encode_kept (r ∷ r' ∷ rules) text e = cc

one_file-ReadsBack : ReadsBack one_file default_rules_config
one_file-ReadsBack = record {
  read-write_file = λ path text w w' e. cc;
  decode-encode = λ cfg text sources e. decode-encode_kept cfg text e;
}

abbrev fresh : Settings ℤ
fresh = record {
  auth_token = bytes "s3";
  rules_path = bytes "rules.json";
  metrics_path = bytes "metrics.json";
  rules = [];
  ioc = record {
    process_names = [];
    process_paths = [];
    process_cmdlines = [];
    file_paths = [];
    remote_ips = [];
  };
  detector = [];
  custom_metrics = [];
  default_metrics = [];
  has_snapshot = true;
  shown = [];
}

kept_sources : All (λ r. r.source ≢ []) (normalize_rules_config (kept ∷ []))
unfolding normalize_rules_config normalize_rules_from normalize_rule id_or_default title_or_default
    normalize_severity normalize_op is_op is_severity trim_space text_beq
kept_sources = (λ e. cc, tt)

kept_encoded : (serve_rules one_file (post (value (kept ∷ []))) fresh none).0 ≡ encoded (kept ∷ [])
unfolding serve_rules saved_rules save_rules_config write_encoded put_rules rebuild rebuild_detector
    normalize_rules_config normalize_rules_from normalize_rule id_or_default title_or_default
    normalize_severity normalize_op is_op is_severity trim_space to_upper to_lower text_beq int_beq
kept_encoded = refl

load_rules_config-serve_rules_example :
    load_rules_config one_file default_rules_config fresh.rules_path
      (serve_rules one_file (post (value (kept ∷ []))) fresh none).2
    ≡ kept ∷ []
load_rules_config-serve_rules_example =
    load_rules_config-serve_rules one_file default_rules_config one_file-ReadsBack (kept ∷ []) fresh
      none (kept ∷ []) (λ e. cc) kept_sources kept_encoded

-- One request with the token and one without it
abbrev with_token : AuthRequest
with_token = record { edr_token = bytes "s3"; authorization = []; cookies = []; query_token = [] }

abbrev events : List (Event ℤ)
events =
    rules_request (some with_token) (post (value (kept ∷ [])))
    ∷ captured
    ∷ ioc_set fresh.ioc
    ∷ rules_request none (post (value []))
    ∷ metrics_request (some with_token) get
    ∷ []

settings-InForce_example :
    InForce
      (after_all one_file
        (λ less names. names)
        (λ metrics. metrics)
        events
        (new_settings one_file (λ metrics. metrics) default_rules_config none, none)).0
settings-InForce_example =
    settings-InForce one_file (λ less names. names) (λ metrics. metrics) default_rules_config events
      none

handle_rules-Spares_example :
    let (reply, answer, s', w') =
      handle_rules one_file none (post (value (kept ∷ []))) fresh none in
    Spares fresh none answer s' w'
handle_rules-Spares_example =
    handle_rules-Spares one_file none (post (value (kept ∷ []))) fresh none
