-- ===== src/Dashboard/History.antt =====
-- What captureSingle of dashboard/dashboard.go stores under its lock: the logs, the alerts and the
-- snapshot, and the goroutine of kickoffCorrelation; `decode`, `encode` and `sort_by_time` are those of
-- correlateAlerts. `at_text` is the layout of an alert's time, and the
-- three others are json.Marshal, `none` on an error.
pub mod Current
use mini_edr.Prelude.World.{World, time_now}
use mini_edr.Prelude.{
  ℕ, suc, ◌-◌, ltb, ℤ, Text, text_eq, bytes, Bool, List, [], ◌∷◌, ◌++◌, Option, none, some, GoMap,
  lookup, insert, length, is_empty, if◌then◌else◌, ◌≡◌, nat_eq, ◌==◌,
}
use mini_edr.Capturer.Info.{Time, is_zero, TelemetryMeta}
use mini_edr.Detection.Types.{Alert, AnyValue}
use mini_edr.Dashboard.Overlap.{AlertEntry}
use mini_edr.Dashboard.Overlap.Correlate.{Indexed, correlate_alerts}

abbrev pub max_alert_history : ℕ
max_alert_history = 50

pub record LogEntry : Type 0 where
  pub at : Text
  pub info : Text
  pub verbose : Text
  pub error : Text
  pub changed : Bool
  pub warming : Bool

-- xs[n:]
unfoldable pub drop {ℓ} : {A : Type ℓ} → ℕ → List A → List A
drop n [] = []
drop n (x ∷ xs) = let rest = drop (n - 1) xs in if n == 0 then x ∷ xs else rest

-- `if len(xs) > n { xs = xs[len(xs)-n:] }`
unfoldable pub last_of {ℓ} : {A : Type ℓ} → ℕ → List A → List A
last_of n xs = if ltb n (length xs) then drop (length xs - n) xs else xs

-- What kickoffCorrelation hands to its goroutine.
pub record Job : Type 0 where
  pub entries : List AlertEntry
  pub intervals : GoMap Text ℤ
  pub default_interval : ℤ
  pub version : ℕ

-- The fields that captureSingle changes, with the goroutines that have not finished.
pub record History : Type 0 where
  pub logs : GoMap Text (List LogEntry)
  pub alert_history : GoMap Text (List AlertEntry)
  pub global_alerts : List AlertEntry
  pub item_intervals : GoMap Text ℤ
  pub display_interval : ℤ
  pub corr_version : ℕ
  pub snapshot_alerts : List AlertEntry
  pub jobs : List Job

abbrev pub list_at {ℓ} : {A : Type ℓ} → Text → GoMap Text (List A) → List A
list_at name m = elim (lookup name m) [ none ↦ [] | some xs ↦ xs ]

abbrev pub text_or : Text → Option Text → Text
text_or fallback none = fallback
text_or fallback (some t) = t

module _ {F : Type 0} (at_text : Time → Text)
    (evidence_json : GoMap Text (AnyValue F) → Option Text)
    (meta_json : TelemetryMeta F → Option Text) (related_json : List Text → Option Text) where
  -- at := alert.At, or time.Now()
  unfoldable pub alert_time : {E : Type 0} → Alert F → World E → Time × World E
  alert_time a w = if is_zero a.at then time_now w else (a.at, w)

  unfoldable pub alert_entry : Alert F → Time → AlertEntry
  alert_entry a at = record {
    id = a.id;
    at = at_text at;
    at_time = at;
    severity = a.severity;
    title = a.title;
    message = a.message;
    rule_id = a.rule_id;
    source = if is_empty a.source then a.meta.capturer else a.source;
    evidence = elim a.evidence [
      | none ↦ bytes "{}"
      | some m ↦ text_or (bytes "{}") (evidence_json m)
    ];
    meta = text_or (bytes "{}") (meta_json a.meta);
    related =
        let listed = text_or (bytes "[]") (related_json a.correlated) in
        if is_empty a.correlated then bytes "[]" else listed;
  }

  -- The entries that the loop over the alerts appends
  unfoldable pub alert_entries : {E : Type 0} → List (Alert F) → World E → List AlertEntry × World E
  alert_entries [] w = ([], w)
  alert_entries (a ∷ alerts) w =
      let (at, w₁) = alert_time a w in
      let (entries, w₂) = alert_entries alerts w₁ in (alert_entry a at ∷ entries, w₂)

-- The logs with one more entry, fifty at most
unfoldable pub store_log : Text → LogEntry → History → History
store_log name entry h = record h {
  logs = insert name (last_of 50 (list_at name h.logs ++ entry ∷ [])) h.logs;
}

-- The alerts with those of the capture
unfoldable pub store_entries : Text → List AlertEntry → History → History
store_entries name entries h =
    let history = last_of max_alert_history (list_at name h.alert_history ++ entries) in
    let all = last_of max_alert_history (h.global_alerts ++ entries) in
    if is_empty entries
    then h
    else record h { alert_history = insert name history h.alert_history; global_alerts = all }

-- kickoffCorrelation
unfoldable pub kickoff_correlation : Job → History → History
kickoff_correlation job h =
    if is_empty job.entries then h else record h { jobs = h.jobs ++ job ∷ [] }

-- The new version and the snapshot, and the start of the correlation
unfoldable pub publish : History → History
publish h =
    let version = suc h.corr_version in
    kickoff_correlation
      (record {
        entries = h.global_alerts;
        intervals = h.item_intervals;
        default_interval = h.display_interval;
        version = version;
      })
      (record h { corr_version = version; snapshot_alerts = h.global_alerts })

-- captureSingle under its lock, with the interval of the capturer
unfoldable pub store : Text → LogEntry → List AlertEntry → ℤ → History → History
store name log entries interval h =
    let logged = store_log name log (store_entries name entries h) in
    publish (record logged { item_intervals = insert name interval logged.item_intervals })

module _ (decode : Text → Option (List Text)) (encode : List Text → Option Text)
    (sort_by_time : List Indexed → List Indexed) where
  -- The goroutine of kickoffCorrelation, when it takes the lock
  unfoldable pub finish_job : Job → History → History
  finish_job job h =
      let correlated =
        correlate_alerts decode encode sort_by_time job.entries job.intervals
          job.default_interval in
      if h.corr_version == job.version then record h { snapshot_alerts = correlated } else h

  -- Captures and goroutines, in any order
  pub data Change (h : History) : History → Type 0 where
    stored :
        (name : Text) (log : LogEntry) (entries : List AlertEntry) (interval : ℤ)
        → Change h (store name log entries interval h)
    finished :
        (job : Job) (before after : List Job)
        → h.jobs ≡ before ++ job ∷ after
        → Change h (record (finish_job job h) { jobs = before ++ after })

  -- What some sequence of changes leads to.
  pub data Changes (h : History) : History → Type 0 where
    no_change : Changes h h
    and_then : {t u : History} → Changes h t → Change t u → Changes h u
