-- ===== src/Dashboard/Settings/Handlers.antt =====
-- handleRules and handleMetrics of dashboard/dashboard.go. `sort_names` is sort.Slice with its
-- comparison, and `sort_by_name` that of custom metrics. A body that is read is a value or the
-- text of json's error.
use mini_edr.Prelude.Fallible.{Fallible, value, failure}
use mini_edr.Prelude.{Text, bytes, Bool, List, ◌++◌, Option, none, some, if◌then◌else◌, Float64}
use mini_edr.Dashboard.Auth.{AuthRequest, AuthReply, authorize}
use mini_edr.Dashboard.Rules.{RuleDefinition, normalize_rules_config}
use mini_edr.Dashboard.Metric.Eval.{CustomMetric}
use mini_edr.Dashboard.Metric.Order.{merge_metrics}
use mini_edr.Dashboard.Metric.Saved.{
  CustomMetricPayload, Outcome, done, missing_expr, bad_expr, unread, collect_custom_metrics,
  to_custom_metric_payload,
}
use mini_edr.Dashboard.Settings.{
  Files, Settings, put_rules, save_rules_config, save_custom_metrics_config, custom_metric_names,
}

-- The method of a request, with the body of a POST
pub data Method (A : Type 0) : Type 0 where
  get : Method A
  post : Fallible A → Method A
  other : Method A

-- The status and the text that a handler writes, or the value that it encodes
pub data Answer (A : Type 0) : Type 0 where
  denied : Answer A
  encoded : A → Answer A
  bad_request : Text → Answer A
  bad_metrics : Outcome (Unit {0}) → Answer A
  server_error : Text → Answer A
  not_allowed : Answer A

pub record MetricsPayload : Type 0 where
  pub defaults : List Text
  pub custom : List CustomMetricPayload
  pub all : List Text

module _ {F E : Type 0} ⦃fl : Float64 F⦄ (files : Files F E) where
  unfoldable pub saved_rules :
      List (RuleDefinition F)
      → Settings F
      → Option Text × E
      → Answer (List (RuleDefinition F)) × Settings F × E
  saved_rules cfg s (some err, w) = (server_error (bytes "save rules: " ++ err), s, w)
  saved_rules cfg s (none, w) = let s' = put_rules cfg s in (encoded s'.rules, s', w)

  unfoldable pub serve_rules :
      Method (List (RuleDefinition F))
      → Settings F
      → E
      → Answer (List (RuleDefinition F)) × Settings F × E
  serve_rules get s w = (encoded s.rules, s, w)
  serve_rules (post (failure err)) s w = (bad_request (bytes "invalid json: " ++ err), s, w)
  serve_rules (post (value req)) s w =
      let cfg = normalize_rules_config req in
      saved_rules cfg s (save_rules_config files s.rules_path cfg w)
  serve_rules other s w = (not_allowed, s, w)

  -- handleRules
  unfoldable pub handle_rules :
      Option AuthRequest
      → Method (List (RuleDefinition F))
      → Settings F
      → E
      → AuthReply × Answer (List (RuleDefinition F)) × Settings F × E
  handle_rules r method s w =
      let (admitted, reply) = authorize s.auth_token r in
      let (answer, s', w') = serve_rules method s w in
      if admitted then (reply, answer, s', w') else (reply, denied, s, w)

  module _ (sort_names : (Text → Text → Bool) → List Text → List Text)
      (sort_by_name : List (CustomMetric F) → List (CustomMetric F)) where
    unfoldable pub metrics_payload : List Text → List (CustomMetric F) → MetricsPayload
    metrics_payload defaults customs = record {
      defaults = defaults;
      custom = to_custom_metric_payload customs;
      all = merge_metrics sort_names defaults (custom_metric_names customs);
    }

    unfoldable pub saved_metrics :
        List (CustomMetric F)
        → Settings F
        → Option Text × E
        → Answer MetricsPayload × Settings F × E
    saved_metrics custom s (some err, w) = (server_error (bytes "save metrics: " ++ err), s, w)
    saved_metrics custom s (none, w) = (
      encoded (metrics_payload s.default_metrics custom),
      record s { custom_metrics = custom },
      w,
    )

    -- After normalizeCustomMetrics, which sorts what it has collected
    unfoldable pub put_metrics :
        Outcome (List (CustomMetric F)) → Settings F → E → Answer MetricsPayload × Settings F × E
    put_metrics (done custom) s w =
        let sorted = sort_by_name custom in
        saved_metrics sorted s (save_custom_metrics_config files s.metrics_path sorted w)
    put_metrics (missing_expr name) s w = (bad_metrics (missing_expr name), s, w)
    put_metrics (bad_expr name e) s w = (bad_metrics (bad_expr name e), s, w)
    put_metrics unread s w = (bad_metrics unread, s, w)

    unfoldable pub serve_metrics :
        Method (List CustomMetricPayload) → Settings F → E → Answer MetricsPayload × Settings F × E
    serve_metrics get s w = (encoded (metrics_payload s.default_metrics s.custom_metrics), s, w)
    serve_metrics (post (failure err)) s w = (bad_request (bytes "invalid json: " ++ err), s, w)
    serve_metrics (post (value req)) s w = put_metrics (collect_custom_metrics req) s w
    serve_metrics other s w = (not_allowed, s, w)

    -- handleMetrics
    unfoldable pub handle_metrics :
        Option AuthRequest
        → Method (List CustomMetricPayload)
        → Settings F
        → E
        → AuthReply × Answer MetricsPayload × Settings F × E
    handle_metrics r method s w =
        let (admitted, reply) = authorize s.auth_token r in
        let (answer, s', w') = serve_metrics method s w in
        if admitted then (reply, answer, s', w') else (reply, denied, s, w)
