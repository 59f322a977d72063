-- ===== src/Dashboard/Item.antt =====
-- What captureSingle of dashboard/dashboard.go shows of one capturer, up to the lock under which it
-- stores it. `find` is FindStringSubmatch of a regular expression, and `zone` prints the time zone of
-- a time.
pub mod Marks
use mini_edr.Prelude.World.{World, time_now}
use mini_edr.Prelude.Fallible.{Fallible, value, failure}
use mini_edr.Prelude.{
  int_eq, Text, text_eq, bytes, Bool, false, List, [], ◌++◌, Option, none, some, GoMap, is_empty,
  if◌then◌else◌, Float64,
}
use mini_edr.Capturer.Info.{Time, TelemetryMeta, InfoData, summary_only}
use mini_edr.Detection.Types.{Alert, RuleSpec}
use mini_edr.Detection.Detector.{Detector, evaluate}
use mini_edr.Agent.Capture.{Capturer, first_non_empty, standard_time}
use mini_edr.Dashboard.Metric.Eval.{CustomMetric, apply_custom_metrics}
use mini_edr.Dashboard.Graphs.{Graph, update_net_scale, update_count_scale}
use mini_edr.Dashboard.Graphs.Derived.{extract_rates_metrics, derive_graphs}
use mini_edr.Dashboard.Summary.{display_name, summarize_info}

-- dashboardItem, whose Meta is that of its report; the histories are those of the server.
pub record Item (F : Type 0) : Type 0 where
  pub name : Text
  pub info : InfoData F
  pub verbose : Text
  pub error : Text
  pub changed : Bool
  pub warming : Bool
  pub graphs : List (Graph F)
  pub display : Text
  pub alerts : List (Alert F)

-- A capturer with IsWarm, which not every capturer has
pub record Watched (S F E : Type 0) : Type 0 where
  pub capturer : Capturer S F E
  pub is_warm : Option (S → Bool)

-- The fields of DashboardServer that an item changes
pub record Shown (F : Type 0) : Type 0 where
  pub net_scales : GoMap Text F
  pub count_scales : GoMap Text (GoMap Text F)
  pub last_payload : GoMap Text Text

module _ {F : Type 0} where
  -- The texts that a report leaves empty
  unfoldable pub fill_texts : Text → Text → TelemetryMeta F → TelemetryMeta F
  fill_texts host name meta =
      let version = first_non_empty meta.agent_version (bytes "dev") in
      record meta {
        host = first_non_empty meta.host host;
        agent_version = version;
        agent_build = first_non_empty meta.agent_build version;
        capturer = first_non_empty meta.capturer name;
      }

module _ {F E : Type 0} where
  unfoldable pub fill_time : TelemetryMeta F → World E → TelemetryMeta F × World E
  fill_time meta w =
      let (at, w') = standard_time meta.captured_at w in (record meta { captured_at = at }, w')

  unfoldable pub fill_zone : (Time → Text) → TelemetryMeta F → World E → TelemetryMeta F × World E
  fill_zone zone meta w =
      let (now, w') = time_now w in
      if is_empty meta.timezone then (record meta { timezone = zone now }, w') else (meta, w)

unfoldable pub verbose_of : {S : Type 0} → Option (S → Fallible Text) → S → Option (Fallible Text)
verbose_of none state = none
verbose_of (some f) state = some (f state)

-- The text and the error of GetVerboseInfo; an error leaves the text empty.
unfoldable pub verbose_parts : Option (Fallible Text) → Text × Text
verbose_parts none = ([], [])
verbose_parts (some (value text)) = (text, [])
verbose_parts (some (failure err)) = ([], bytes "getverboseinfo error: " ++ err)

module _ {F : Type 0} ⦃fl : Float64 F⦄ where
  unfoldable pub failed_item : Text → Text → Item F
  failed_item name error = record {
    name = name;
    info = summary_only [];
    verbose = [];
    error = error;
    changed = false;
    warming = false;
    graphs = [];
    display = [];
    alerts = [];
  }

  -- The detector of the dashboard, without deduper and limiter
  abbrev pub dashboard_detector : List (RuleSpec F) → Detector F
  dashboard_detector specs = record {
    rules = specs;
    deduper = none;
    limiter = none;
    ids = record { source = none; calls = 0 };
  }

  module _ {E : Type 0} (find : Text → Text → List Text) where
    -- The item of a report
    unfoldable pub reported_item :
        Text
        → List (RuleSpec F)
        → Option (Fallible Text)
        → InfoData F
        → Shown F
        → World E
        → Item F × Shown F × World E
    reported_item name specs verbose info s w =
        let (text, error) = verbose_parts verbose in
        let (alerts, detector, w') = evaluate (dashboard_detector specs) info w in
        let (net_scale, net_scales) =
          update_net_scale name (extract_rates_metrics find info) s.net_scales in
        let (graphs, count_scales) =
          derive_graphs find (update_count_scale name) name info net_scale s.count_scales in
        (
          record {
            name = name;
            info = info;
            verbose = text;
            error = error;
            changed = false;
            warming = false;
            graphs = graphs;
            display = summarize_info find name info;
            alerts = alerts;
          },
          record s { net_scales = net_scales; count_scales = count_scales },
          w',
        )

    module _ (host : Text) (zone : Time → Text) where
      -- After GetInfo
      unfoldable pub informed_item :
          Text
          → List (RuleSpec F)
          → List (CustomMetric F)
          → Option (Fallible Text)
          → Fallible (InfoData F)
          → Shown F
          → World E
          → Item F × Shown F × World E
      informed_item name specs customs verbose (failure err) s w =
          (failed_item name (bytes "getinfo error: " ++ err), s, w)
      informed_item name specs customs verbose (value info) s w =
          let (timed, w') = fill_time (fill_texts host name info.meta) w in
          let (filled, w'') = fill_zone zone timed w' in
          reported_item name specs verbose
            (apply_custom_metrics (record info { meta = filled }) customs) s w''

      -- After Capture
      unfoldable pub captured_item :
          {S : Type 0}
          → Watched S F E
          → List (RuleSpec F)
          → List (CustomMetric F)
          → Option Text × S × World E
          → Shown F
          → Item F × Shown F × World E
      captured_item c specs customs (some err, state, w) s =
          (failed_item (display_name c.capturer.name) (bytes "capture error: " ++ err), s, w)
      captured_item c specs customs (none, state, w) s =
          let (info, w') = c.capturer.get_info state w in
          informed_item (display_name c.capturer.name) specs customs
            (verbose_of c.capturer.get_verbose_info state) info s w'
