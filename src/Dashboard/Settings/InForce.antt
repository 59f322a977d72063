-- ===== src/Dashboard/Settings/InForce.antt =====
-- What is in force after any requests to DashboardServer of dashboard/dashboard.go.
use mini_edr.Prelude.Fallible.{value, failure}
use mini_edr.Prelude.{
  Text, Bool, true, false, List, [], ◌∷◌, ◌++◌, Option, none, some, if◌then◌else◌, ◌≡◌, refl, ◌∙◌,
  sym, Bool-cases, inl, inr, Float64,
}
use mini_edr.Detection.Types.{RuleSpec}
use mini_edr.Detection.Ioc.{IocConfig, has_no_indicators}
use mini_edr.Detection.Ioc.Rule.{rule_ioc_match}
use mini_edr.Dashboard.Auth.{AuthRequest, authorize}
use mini_edr.Dashboard.Rules.{
  RuleDefinition, normalize_rules_config, enabled_specs, rebuild_detector,
}
use mini_edr.Dashboard.Rules.Twice.{normalize_rules_config_idem}
use mini_edr.Dashboard.Metric.Eval.{CustomMetric}
use mini_edr.Dashboard.Metric.Saved.{
  CustomMetricPayload, Outcome, done, missing_expr, bad_expr, unread, collect_custom_metrics,
}
use mini_edr.Dashboard.Settings.{
  Files, Settings, new_settings, rebuild, put_rules, set_ioc_config, save_rules_config,
  save_custom_metrics_config,
}
use mini_edr.Dashboard.Settings.Handlers.{
  Method, get, post, other, serve_rules, saved_rules, handle_rules, serve_metrics, saved_metrics,
  put_metrics, handle_metrics,
}

module _ {F : Type 0} ⦃fl : Float64 F⦄ where
  -- The rules of the detector that belongs to some rules and indicators
  abbrev pub specs_of : List (RuleDefinition F) → IocConfig → List (RuleSpec F)
  specs_of rules ioc =
      enabled_specs rules ++ (if has_no_indicators ioc then [] else rule_ioc_match ioc ∷ [])

  -- The rules are normal, the detector is theirs, and the snapshot shows them.
  pub record InForce (s : Settings F) : Type 0 where
    pub is_normal : normalize_rules_config s.rules ≡ s.rules
    pub is_detected : s.detector ≡ specs_of s.rules s.ioc
    pub is_shown : s.has_snapshot ≡ true → s.shown ≡ s.rules

  rebuild-rules : (s : Settings F) → (rebuild s).rules ≡ normalize_rules_config s.rules
  unfolding rebuild rebuild_detector
  rebuild-rules s = refl

  shown-InForce :
      (b : Bool) (t : Settings F)
      → normalize_rules_config t.rules ≡ t.rules
      → t.detector ≡ specs_of t.rules t.ioc
      → t.has_snapshot ≡ b
      → InForce (if b then record t { shown = t.rules } else t)
  shown-InForce true t normal detected e = record {
    is_normal = normal;
    is_detected = detected;
    is_shown = λ stored. refl;
  }
  shown-InForce false t normal detected e = record {
    is_normal = normal;
    is_detected = detected;
    is_shown = λ stored. cc;
  }

  put_rules-InForce : (cfg : List (RuleDefinition F)) (s : Settings F) → InForce (put_rules cfg s)
  unfolding put_rules rebuild rebuild_detector
  put_rules-InForce cfg s =
      shown-InForce s.has_snapshot (rebuild (record s { rules = cfg }))
        (normalize_rules_config_idem cfg) refl refl

  set_ioc_config-InForce :
      (ioc : IocConfig) (s : Settings F) → InForce s → InForce (set_ioc_config ioc s)
  unfolding set_ioc_config rebuild rebuild_detector
  set_ioc_config-InForce ioc s h = record {
    is_normal = normalize_rules_config_idem s.rules;
    is_detected = refl;
    is_shown = λ stored. h.is_shown stored ∙ sym h.is_normal;
  }

-- What happens to the settings: requests to the two handlers, SetIOCConfig, and a capture that
-- stores a snapshot, which shows the rules.
pub data Event (F : Type 0) : Type 0 where
  rules_request : Option AuthRequest → Method (List (RuleDefinition F)) → Event F
  metrics_request : Option AuthRequest → Method (List CustomMetricPayload) → Event F
  ioc_set : IocConfig → Event F
  captured : Event F

module _ {F E : Type 0} ⦃fl : Float64 F⦄ (files : Files F E)
    (sort_names : (Text → Text → Bool) → List Text → List Text)
    (sort_by_name : List (CustomMetric F) → List (CustomMetric F)) where
  pub after : Event F → Settings F × E → Settings F × E
  after (rules_request r method) (s, w) =
      let (reply, answer, s', w') = handle_rules files r method s w in (s', w')
  after (metrics_request r method) (s, w) =
      let (reply, answer, s', w') = handle_metrics files sort_names sort_by_name r method s w in
      (s', w')
  after (ioc_set ioc) (s, w) = (set_ioc_config ioc s, w)
  after captured (s, w) = (record s { has_snapshot = true; shown = s.rules }, w)

  pub after_all : List (Event F) → Settings F × E → Settings F × E
  after_all [] state = state
  after_all (e ∷ events) state = after_all events (after e state)

  saved_rules-InForce :
      (cfg : List (RuleDefinition F)) (s : Settings F) (r : Option Text × E)
      → InForce s
      → InForce (saved_rules files cfg s r).1
  unfolding saved_rules
  saved_rules-InForce cfg s (some err, w) h = h
  saved_rules-InForce cfg s (none, w) h = put_rules-InForce cfg s

  serve_rules-InForce :
      (method : Method (List (RuleDefinition F))) (s : Settings F) (w : E)
      → InForce s
      → InForce (serve_rules files method s w).1
  unfolding serve_rules
  serve_rules-InForce get s w h = h
  serve_rules-InForce (post (failure err)) s w h = h
  serve_rules-InForce (post (value req)) s w h =
      saved_rules-InForce (normalize_rules_config req) s
        (save_rules_config files s.rules_path (normalize_rules_config req) w) h
  serve_rules-InForce other s w h = h

  handle_rules-InForce :
      (r : Option AuthRequest) (method : Method (List (RuleDefinition F))) (s : Settings F) (w : E)
      → InForce s
      → InForce (handle_rules files r method s w).2
  unfolding handle_rules
  handle_rules-InForce r method s w h = elim (Bool-cases (authorize s.auth_token r).0) [
    | inl admitted ↦ rw admitted (serve_rules-InForce method s w h)
    | inr denied ↦ rw denied h
  ]

  saved_metrics-InForce :
      (custom : List (CustomMetric F)) (s : Settings F) (r : Option Text × E)
      → InForce s
      → InForce (saved_metrics files sort_names sort_by_name custom s r).1
  unfolding saved_metrics
  saved_metrics-InForce custom s (some err, w) h = h
  saved_metrics-InForce custom s (none, w) h = record {
    is_normal = h.is_normal;
    is_detected = h.is_detected;
    is_shown = h.is_shown;
  }

  put_metrics-InForce :
      (o : Outcome (List (CustomMetric F))) (s : Settings F) (w : E)
      → InForce s
      → InForce (put_metrics files sort_names sort_by_name o s w).1
  unfolding put_metrics
  put_metrics-InForce (done custom) s w h =
      saved_metrics-InForce (sort_by_name custom) s
        (save_custom_metrics_config files s.metrics_path (sort_by_name custom) w) h
  put_metrics-InForce (missing_expr name) s w h = h
  put_metrics-InForce (bad_expr name e) s w h = h
  put_metrics-InForce unread s w h = h

  serve_metrics-InForce :
      (method : Method (List CustomMetricPayload)) (s : Settings F) (w : E)
      → InForce s
      → InForce (serve_metrics files sort_names sort_by_name method s w).1
  unfolding serve_metrics
  serve_metrics-InForce get s w h = h
  serve_metrics-InForce (post (failure err)) s w h = h
  serve_metrics-InForce (post (value req)) s w h =
      put_metrics-InForce (collect_custom_metrics req) s w h
  serve_metrics-InForce other s w h = h

  handle_metrics-InForce :
      (r : Option AuthRequest) (method : Method (List CustomMetricPayload)) (s : Settings F) (w : E)
      → InForce s
      → InForce (handle_metrics files sort_names sort_by_name r method s w).2
  unfolding handle_metrics
  handle_metrics-InForce r method s w h = elim (Bool-cases (authorize s.auth_token r).0) [
    | inl admitted ↦ rw admitted (serve_metrics-InForce method s w h)
    | inr denied ↦ rw denied h
  ]

  after-InForce : (e : Event F) (s : Settings F) (w : E) → InForce s → InForce (after e (s, w)).0
  unfolding after
  after-InForce (rules_request r method) s w h = handle_rules-InForce r method s w h
  after-InForce (metrics_request r method) s w h = handle_metrics-InForce r method s w h
  after-InForce (ioc_set ioc) s w h = set_ioc_config-InForce ioc s h
  after-InForce captured s w h = record {
    is_normal = h.is_normal;
    is_detected = h.is_detected;
    is_shown = λ stored. refl;
  }

  after_all-InForce :
      (events : List (Event F)) (state : Settings F × E)
      → InForce state.0
      → InForce (after_all events state).0
  unfolding after_all
  after_all-InForce [] state h = h
  after_all-InForce (e ∷ events) (s, w) h =
      after_all-InForce events (after e (s, w)) (after-InForce e s w h)

  new_settings-InForce :
      (defaults : List (RuleDefinition F)) (w : E)
      → InForce (new_settings files sort_by_name defaults w)
  unfolding new_settings rebuild rebuild_detector
  new_settings-InForce defaults w = record {
    is_normal = normalize_rules_config_idem _;
    is_detected = refl;
    is_shown = λ stored. cc;
  }

  -- Whatever requests come in any order, refused, invalid or failing to be saved, and whenever
  -- indicators are set and snapshots stored: the rules that the server keeps are normal, its
  -- detector is the one of these rules and of its indicators, and a stored snapshot shows them. The
  -- files may hold anything when the server starts, and writing them may fail.
  pub settings-InForce :
      (defaults : List (RuleDefinition F)) (events : List (Event F)) (w : E)
      → InForce (after_all events (new_settings files sort_by_name defaults w, w)).0
  settings-InForce defaults events w =
      after_all-InForce events (new_settings files sort_by_name defaults w, w)
        (new_settings-InForce defaults w)
