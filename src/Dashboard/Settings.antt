-- ===== src/Dashboard/Settings.antt =====
-- The settings of DashboardServer in dashboard/dashboard.go: the rules and the custom metrics with
-- the files that keep them, and the handlers of /rules and /metrics.
pub mod Defaults
pub mod Handlers
pub mod InForce
pub mod Restart
pub mod Refused
use mini_edr.Prelude.Strings.{trim_space}
use mini_edr.Prelude.Fallible.{Fallible, value, failure}
use mini_edr.Prelude.{
  Text, text_eq, bytes, Bool, false, List, [], ◌∷◌, Option, none, some, is_empty, if◌then◌else◌,
  ◌||◌, ◌++◌, ◌&&◌, not, is_some, has, GoMap, insert, Float64,
}
use mini_edr.Detection.Types.{RuleSpec}
use mini_edr.Detection.Ioc.{IocConfig}
use mini_edr.Dashboard.Rules.{RuleDefinition, normalize_rules_config, rebuild_detector}
use mini_edr.Dashboard.Metric.Expr.{MetricExpr, expr}
use mini_edr.Dashboard.Metric.Eval.{CustomMetric}

-- The files and the JSON of the settings. os.ReadFile gives the bytes or an error; os.WriteFile gives
-- an error, if there is one, and the files after it. json.Unmarshal of rules reads into the value
-- that it is given.
pub record Files (F E : Type 0) : Type 0 where
  pub read_file : Text → E → Option Text
  pub write_file : Text → Text → E → Option Text × E
  pub encode_rules : List (RuleDefinition F) → Fallible Text
  pub decode_rules : List (RuleDefinition F) → Text → Option (List (RuleDefinition F))
  pub encode_metrics : List (CustomMetric F) → Fallible Text
  pub decode_metrics : Text → Option (List (CustomMetric F))

-- The fields of DashboardServer that the settings are made of; `shown` is the rules in the snapshot.
pub record Settings (F : Type 0) : Type 0 where
  pub auth_token : Text
  pub rules_path : Text
  pub metrics_path : Text
  pub rules : List (RuleDefinition F)
  pub ioc : IocConfig
  pub detector : List (RuleSpec F)
  pub custom_metrics : List (CustomMetric F)
  pub default_metrics : List Text
  pub has_snapshot : Bool
  pub shown : List (RuleDefinition F)

module _ {F : Type 0} ⦃fl : Float64 F⦄ where
  -- rebuildDetectorLocked
  unfoldable pub rebuild : Settings F → Settings F
  rebuild s =
      let (cfg, specs) = rebuild_detector s.rules s.ioc in
      record s { rules = cfg; detector = specs }

  -- SetIOCConfig
  unfoldable pub set_ioc_config : IocConfig → Settings F → Settings F
  set_ioc_config ioc s = rebuild (record s { ioc = ioc })

  -- The end of a POST of rules: what was saved comes into force.
  unfoldable pub put_rules : List (RuleDefinition F) → Settings F → Settings F
  put_rules cfg s =
      let s' = rebuild (record s { rules = cfg }) in
      if s'.has_snapshot then record s' { shown = s'.rules } else s'

module _ {F E : Type 0} (files : Files F E) where
  unfoldable pub decoded_rules : List (RuleDefinition F) → Option Text → List (RuleDefinition F)
  decoded_rules defaults none = defaults
  decoded_rules defaults (some text) = elim (files.decode_rules defaults text) [
    | none ↦ defaults
    | some cfg ↦ normalize_rules_config cfg
  ]

  -- loadRulesConfig
  unfoldable pub load_rules_config : List (RuleDefinition F) → Text → E → List (RuleDefinition F)
  load_rules_config defaults path w =
      if is_empty path then defaults else decoded_rules defaults (files.read_file path w)

  -- os.WriteFile of what was encoded, with a line feed
  unfoldable pub write_encoded : Text → Fallible Text → E → Option Text × E
  write_encoded path (failure err) w = (some err, w)
  write_encoded path (value text) w = files.write_file path (text ++ bytes "\n") w

  -- saveRulesConfig
  unfoldable pub save_rules_config : Text → List (RuleDefinition F) → E → Option Text × E
  save_rules_config path cfg w =
      if is_empty path then (none, w) else write_encoded path (files.encode_rules cfg) w

  -- saveCustomMetricsConfig
  unfoldable pub save_custom_metrics_config : Text → List (CustomMetric F) → E → Option Text × E
  save_custom_metrics_config path metrics w =
      if is_empty path then (none, w) else write_encoded path (files.encode_metrics metrics) w

module _ {F : Type 0} where
  -- `Expr.Op == "" && Expr.Metric == "" && Expr.Value == nil`
  unfoldable pub is_blank : MetricExpr F → Bool
  is_blank (expr op args name number) = is_empty op && is_empty name && not (is_some number)

  -- The loop of normalizeCustomMetricsUnsafe
  unfoldable pub trusted_metrics :
      List (CustomMetric F) → GoMap Text (Unit {0}) → List (CustomMetric F)
  trusted_metrics [] seen = []
  trusted_metrics (raw ∷ input) seen =
      let name = trim_space raw.name in
      let skipped = is_empty name || has name seen || is_blank raw.value_of in
      let rest = trusted_metrics input (if skipped then seen else insert name tt seen) in
      if skipped then rest else record { name = name; value_of = raw.value_of } ∷ rest

  -- customMetricNames
  unfoldable pub custom_metric_names : List (CustomMetric F) → List Text
  custom_metric_names [] = []
  custom_metric_names (cm ∷ list) =
      let rest = custom_metric_names list in if is_empty cm.name then rest else cm.name ∷ rest

module _ {F E : Type 0} (files : Files F E)
    (sort_by_name : List (CustomMetric F) → List (CustomMetric F)) where
  -- normalizeCustomMetricsUnsafe
  unfoldable pub normalize_custom_metrics_unsafe : List (CustomMetric F) → List (CustomMetric F)
  normalize_custom_metrics_unsafe input = sort_by_name (trusted_metrics input [])

  unfoldable pub decoded_metrics : Option Text → List (CustomMetric F)
  decoded_metrics none = []
  decoded_metrics (some text) = elim (files.decode_metrics text) [
    | none ↦ []
    | some custom ↦ if is_empty custom then [] else normalize_custom_metrics_unsafe custom
  ]

  -- loadCustomMetricsConfig; a file in the older form counts as empty, like any other.
  unfoldable pub load_custom_metrics_config : Text → E → List (CustomMetric F)
  load_custom_metrics_config path w =
      if is_empty path then [] else decoded_metrics (files.read_file path w)

-- The settings of NewDashboardServer
unfoldable pub new_settings :
    {F E : Type 0} ⦃fl : Float64 F⦄
    → Files F E
    → (List (CustomMetric F) → List (CustomMetric F))
    → List (RuleDefinition F)
    → E
    → Settings F
new_settings files sort_by_name defaults w = rebuild (record {
  auth_token = [];
  rules_path = bytes "rules.json";
  metrics_path = bytes "metrics.json";
  rules = load_rules_config files defaults (bytes "rules.json") w;
  ioc = record {
    process_names = [];
    process_paths = [];
    process_cmdlines = [];
    file_paths = [];
    remote_ips = [];
  };
  detector = [];
  custom_metrics = load_custom_metrics_config files sort_by_name (bytes "metrics.json") w;
  default_metrics = [];
  has_snapshot = false;
  shown = [];
})
