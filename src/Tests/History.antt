-- ===== src/Tests/History.antt =====
-- captureSingle of dashboard/dashboard.go: an instance.
use mini_edr.Prelude.{
  ◌≤◌, pos, Text, text_eq, text_beq, bytes, false, List, [], ◌∷◌, Option, none, insert, length,
  refl,
}
use mini_edr.Dashboard.Overlap.{AlertEntry}
use mini_edr.Dashboard.Overlap.Correlate.{Indexed}
use mini_edr.Dashboard.History.{
  LogEntry, Job, History, Changes, no_change, and_then, stored, finished, store, store_log,
  store_entries, publish, kickoff_correlation, last_of, finish_job,
}
use mini_edr.Dashboard.History.Current.{IsCurrent, no_history, history-IsCurrent}

abbrev alert : AlertEntry
alert = record {
  id = bytes "a";
  at = [];
  at_time = 1000;
  severity = [];
  title = [];
  message = [];
  rule_id = [];
  source = bytes "CPU";
  evidence = [];
  meta = [];
  related = [];
}

abbrev log : LogEntry
log = record { at = []; info = []; verbose = []; error = []; changed = false; warming = false }

abbrev no_decoding : Text → Option (List Text)
no_decoding text = none

abbrev no_encoding : List Text → Option Text
no_encoding texts = none

abbrev as_they_stand : List Indexed → List Indexed
as_they_stand xs = xs

abbrev once : History
once = store (bytes "CPU") log (alert ∷ []) (pos 5) (no_history (pos 0))

abbrev job : Job
job = record {
  entries = alert ∷ [];
  intervals = (bytes "CPU", pos 5) ∷ [];
  default_interval = pos 0;
  version = 1;
}

abbrev twice : History
twice = store (bytes "CPU") log [] (pos 5) once

-- The goroutine of the first capture finishes after the second one.
abbrev late : History
late = record (finish_job no_decoding no_encoding as_they_stand job twice) {
  jobs = record job { version = 2 } ∷ [];
}

late-Changes : Changes no_decoding no_encoding as_they_stand (no_history (pos 0)) late
unfolding store store_log store_entries publish kickoff_correlation last_of insert text_beq
late-Changes =
    and_then
      (and_then (and_then no_change (stored (bytes "CPU") log (alert ∷ []) (pos 5)))
        (stored (bytes "CPU") log [] (pos 5)))
      (finished job [] (record job { version = 2 } ∷ []) refl)

history-IsCurrent_example :
    (length late.global_alerts ≤ 50) × IsCurrent no_decoding no_encoding as_they_stand late
history-IsCurrent_example =
    history-IsCurrent no_decoding no_encoding as_they_stand (pos 0) late late-Changes
