-- ===== src/Dashboard/Settings/Refused.antt =====
-- Requests that handleRules and handleMetrics of dashboard/dashboard.go do not answer with settings.
use mini_edr.Prelude.Fallible.{value, failure}
use mini_edr.Prelude.{
  Text, Bool, true, false, List, Option, none, some, ◌≡◌, refl, Bool-cases, inl, inr, Float64,
}
use mini_edr.Dashboard.Auth.{AuthRequest, authorize}
use mini_edr.Dashboard.Rules.{RuleDefinition, normalize_rules_config}
use mini_edr.Dashboard.Metric.Eval.{CustomMetric}
use mini_edr.Dashboard.Metric.Saved.{
  CustomMetricPayload, Outcome, done, missing_expr, bad_expr, unread, collect_custom_metrics,
}
use mini_edr.Dashboard.Settings.{Files, Settings, save_rules_config, save_custom_metrics_config}
use mini_edr.Dashboard.Settings.Handlers.{
  Method, get, post, other, Answer, encoded, server_error, serve_rules, saved_rules, handle_rules,
  serve_metrics, saved_metrics, put_metrics, handle_metrics,
}

abbrev pub is_encoded : {A : Type 0} → Answer A → Bool
is_encoded (encoded a) = true
is_encoded answer = false

abbrev pub is_server_error : {A : Type 0} → Answer A → Bool
is_server_error (server_error err) = true
is_server_error answer = false

-- An answer without settings leaves the settings alone, and the files too unless the server failed.
abbrev pub Spares : {A F E : Type 0} → Settings F → E → Answer A → Settings F → E → Type 0
Spares s w answer s' w' =
    is_encoded answer ≡ false → (s' ≡ s) × (is_server_error answer ≡ false → w' ≡ w)

module _ {F E : Type 0} ⦃fl : Float64 F⦄ (files : Files F E) where
  saved_rules-Spares :
      (cfg : List (RuleDefinition F)) (s : Settings F) (w : E) (r : Option Text × E)
      → let (answer, s', w') = saved_rules files cfg s r in Spares s w answer s' w'
  unfolding saved_rules
  saved_rules-Spares cfg s w (some err, w') h = (refl, λ e. cc)
  saved_rules-Spares cfg s w (none, w') h = cc

  serve_rules-Spares :
      (method : Method (List (RuleDefinition F))) (s : Settings F) (w : E)
      → let (answer, s', w') = serve_rules files method s w in Spares s w answer s' w'
  unfolding serve_rules
  serve_rules-Spares get s w h = cc
  serve_rules-Spares (post (failure err)) s w h = (refl, λ e. refl)
  serve_rules-Spares (post (value req)) s w h =
      saved_rules-Spares (normalize_rules_config req) s w
        (save_rules_config files s.rules_path (normalize_rules_config req) w) h
  serve_rules-Spares other s w h = (refl, λ e. refl)

  -- What handleRules does not answer with rules has no effect: a request without the token, one that
  -- is no JSON, or another method leave the settings and the files alone, and rules that cannot be
  -- saved do not come into force.
  pub handle_rules-Spares :
      (r : Option AuthRequest) (method : Method (List (RuleDefinition F))) (s : Settings F) (w : E)
      → let (reply, answer, s', w') = handle_rules files r method s w in Spares s w answer s' w'
  unfolding handle_rules
  handle_rules-Spares r method s w = elim (Bool-cases (authorize s.auth_token r).0) [
    | inl admitted ↦ rw admitted (serve_rules-Spares method s w)
    | inr refused ↦ rw refused (λ h. (refl, λ e. refl))
  ]

module _ {F E : Type 0} ⦃fl : Float64 F⦄ (files : Files F E)
    (sort_names : (Text → Text → Bool) → List Text → List Text)
    (sort_by_name : List (CustomMetric F) → List (CustomMetric F)) where
  saved_metrics-Spares :
      (custom : List (CustomMetric F)) (s : Settings F) (w : E) (r : Option Text × E)
      → let (answer, s', w') = saved_metrics files sort_names sort_by_name custom s r in
        Spares s w answer s' w'
  unfolding saved_metrics
  saved_metrics-Spares custom s w (some err, w') h = (refl, λ e. cc)
  saved_metrics-Spares custom s w (none, w') h = cc

  put_metrics-Spares :
      (o : Outcome (List (CustomMetric F))) (s : Settings F) (w : E)
      → let (answer, s', w') = put_metrics files sort_names sort_by_name o s w in
        Spares s w answer s' w'
  unfolding put_metrics
  put_metrics-Spares (done custom) s w h =
      saved_metrics-Spares (sort_by_name custom) s w
        (save_custom_metrics_config files s.metrics_path (sort_by_name custom) w) h
  put_metrics-Spares (missing_expr name) s w h = (refl, λ e. refl)
  put_metrics-Spares (bad_expr name err) s w h = (refl, λ e. refl)
  put_metrics-Spares unread s w h = (refl, λ e. refl)

  serve_metrics-Spares :
      (method : Method (List CustomMetricPayload)) (s : Settings F) (w : E)
      → let (answer, s', w') = serve_metrics files sort_names sort_by_name method s w in
        Spares s w answer s' w'
  unfolding serve_metrics
  serve_metrics-Spares get s w h = cc
  serve_metrics-Spares (post (failure err)) s w h = (refl, λ e. refl)
  serve_metrics-Spares (post (value req)) s w h =
      put_metrics-Spares (collect_custom_metrics req) s w h
  serve_metrics-Spares other s w h = (refl, λ e. refl)

  -- What handleMetrics does not answer with metrics has no effect: a request without the token, one
  -- that is no JSON, one with an expression that is missing or cannot be parsed, or another method
  -- leave the settings and the files alone, and metrics that cannot be saved do not come into force.
  handle_metrics-Spares :
      (r : Option AuthRequest) (method : Method (List CustomMetricPayload)) (s : Settings F) (w : E)
      → let (reply, answer, s', w') = handle_metrics files sort_names sort_by_name r method s w in
        Spares s w answer s' w'
  unfolding handle_metrics
  handle_metrics-Spares r method s w = elim (Bool-cases (authorize s.auth_token r).0) [
    | inl admitted ↦ rw admitted (serve_metrics-Spares method s w)
    | inr refused ↦ rw refused (λ h. (refl, λ e. refl))
  ]
