-- ===== src/Detection/Types.antt =====
-- The types of detection.go, and the clock that the package reads.
use mini_edr.Prelude.{
  ◌+◌, ℤ, pos_part, Text, bytes, Bool, false, List, [], Option, some, Float64, GoMap, is_empty,
  if◌then◌else◌,
}
use mini_edr.Capturer.Info.{zero_meta, Time, TelemetryMeta, InfoData}
pub use mini_edr.Prelude.World.{World}
unfoldable pub use mini_edr.Prelude.World.{time_now}

-- A value of Go's type `any`, as far as the package looks into one.
pub data Scalar (F : Type 0) : Type 0 where
  int : ℤ → Scalar F
  int32 : ℤ → Scalar F
  int64 : ℤ → Scalar F
  float64 : F → Scalar F
  text : Text → Scalar F
  other : Scalar F

pub data AnyValue (F : Type 0) : Type 0 where
  scalar : Scalar F → AnyValue F
  texts : List Text → AnyValue F
  ints : List ℤ → AnyValue F
  int32s : List ℤ → AnyValue F
  int64s : List ℤ → AnyValue F
  floats : List F → AnyValue F
  anys : List (Scalar F) → AnyValue F

-- AlertSeverity is a string type, and any string may stand in an alert.
abbrev pub Severity : Type 0
Severity = Text

abbrev pub severity_info : Severity
severity_info = bytes "info"

abbrev pub severity_low : Severity
severity_low = bytes "low"

abbrev pub severity_medium : Severity
severity_medium = bytes "medium"

abbrev pub severity_high : Severity
severity_high = bytes "high"

abbrev pub severity_critical : Severity
severity_critical = bytes "critical"

pub record Alert (F : Type 0) : Type 0 where
  pub id : Text
  pub rule_id : Text
  pub title : Text
  pub severity : Severity
  pub message : Text
  pub source : Text
  pub at : Time
  pub meta : TelemetryMeta F
  pub evidence : Option (GoMap Text (AnyValue F))
  pub correlated : List Text
  pub dedup_key : Text
  pub rate_limited : Bool

module _ {F : Type 0} ⦃fl : Float64 F⦄ where
  -- Alert{RuleID: …, Message: …, Evidence: …, DedupKey: …}, with zero values elsewhere
  abbrev pub new_alert : Text → Text → GoMap Text (AnyValue F) → Text → Alert F
  new_alert rule_id message evidence key = record {
    id = [];
    rule_id = rule_id;
    title = [];
    severity = [];
    message = message;
    source = [];
    at = 0;
    meta = zero_meta;
    evidence = some evidence;
    correlated = [];
    dedup_key = key;
    rate_limited = false;
  }

-- `none` is a nil Eval.
pub record RuleSpec (F : Type 0) : Type 0 where
  pub id : Text
  pub title : Text
  pub description : Text
  pub severity : Severity
  pub tags : List Text
  pub source : Text
  pub dedup_key : Text
  pub eval : Option (InfoData F → List (Alert F))

-- t.Add(d) for a duration d > 0
abbrev pub add_duration : Time → ℤ → Time
add_duration t d = t + pos_part d

-- The key under which the deduper, the limiter and the policy file an alert.
unfoldable pub alert_key : {F : Type 0} → Alert F → Text
alert_key a = if is_empty a.dedup_key then a.rule_id else a.dedup_key
