-- ===== src/Tests/Samples.antt =====
-- Test data: alerts, captures and worlds over whole numbers in the place of floats.
use mini_edr.Prelude.{ℕ, ◌+◌, ℤ, pos, Text, bytes, List, [], ◌∷◌, none, some, false}
use mini_edr.Capturer.Info.{TelemetryMeta, InfoData}
use mini_edr.Detection.Types.{Alert, RuleSpec, World}
use mini_edr.Detection.Enrich.{IdSource}
use mini_edr.Detection.Responders.{Responder}

abbrev pub blank_meta : TelemetryMeta ℤ
blank_meta = record {
  host = [];
  agent_version = [];
  agent_build = [];
  session = [];
  timezone = [];
  captured_at = 0;
  os = [];
  arch = [];
  capturer = [];
  interval_sec = pos 0;
  max_files = pos 0;
}

abbrev pub blank_alert : Alert ℤ
blank_alert = record {
  id = [];
  rule_id = [];
  title = [];
  severity = [];
  message = [];
  source = [];
  at = 0;
  meta = blank_meta;
  evidence = none;
  correlated = [];
  dedup_key = [];
  rate_limited = false;
}

-- An alert of a rule.
abbrev pub alert_of : Text → Alert ℤ
alert_of rule = record blank_alert { rule_id = rule }

abbrev pub cpu : Alert ℤ
cpu = alert_of (bytes "cpu")

abbrev pub net : Alert ℤ
net = alert_of (bytes "net")

abbrev pub blank_info : InfoData ℤ
blank_info = record { summary = []; metrics = none; fields = none; meta = blank_meta }

abbrev pub info_with : TelemetryMeta ℤ → InfoData ℤ
info_with meta = record blank_info { meta = meta }

-- A rule that always gives one alert, and leaves its fields empty.
abbrev pub loud_rule : RuleSpec ℤ
loud_rule = record {
  id = bytes "loud";
  title = [];
  description = [];
  severity = [];
  tags = bytes "noise" ∷ [];
  source = bytes "CPU";
  dedup_key = [];
  eval = some (λ info. blank_alert ∷ []);
}

abbrev pub no_ids : IdSource
no_ids = record { source = none; calls = 0 }

-- A world whose n-th reading of the clock is 1000 + n.
abbrev pub world_at : {E : Type 0} → ℕ → E → World E
world_at n e = record { clock = λ i. 1000 + i; reads = n; outside = e }

-- A responder that appends the alert to the outside world and fails.
abbrev pub recorder : Responder ℤ (List (Alert ℤ))
recorder = record {
  name = bytes "rec";
  handle = λ a w. (some (bytes "full"), record w { outside = a ∷ w.outside });
}
