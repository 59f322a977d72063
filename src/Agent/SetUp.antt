-- ===== src/Agent/SetUp.antt =====
-- The set-up of the agent: NewCollectAgent, AddSink, AddResponder and the checks of Run in
-- agent/agent.go, capturer/interval.go and schedule.go.
use mini_edr.Prelude.Strings.{decimal}
use mini_edr.Prelude.{
  ℕ, suc, ◌*◌, ℤ, pos, is_nonpos, Text, bytes, false, List, [], ◌∷◌, ◌++◌, Option, none, some,
  if◌then◌else◌,
}
use mini_edr.Detection.Responders.{Responder, ResponderPipeline}
use mini_edr.Pipeline.{AlertPipeline}
use mini_edr.Agent.{Sink, CollectAgent}

abbrev second : ℕ
second = 1000000000

-- The dynamic types that DefaultIntervalFor tests for.
pub data CapturerKind : Type 0 where
  cpu_capturer : CapturerKind
  net_capturer : CapturerKind
  conn_capturer : CapturerKind
  proc_capturer : CapturerKind
  mem_capturer : CapturerKind
  file_change_capturer : CapturerKind
  disk_capturer : CapturerKind
  persist_capturer : CapturerKind
  other_capturer : CapturerKind

-- DefaultIntervalFor
unfoldable pub default_interval_for : CapturerKind → ℤ
default_interval_for cpu_capturer = pos second
default_interval_for net_capturer = pos (5 * second)
default_interval_for conn_capturer = pos (5 * second)
default_interval_for proc_capturer = pos (5 * second)
default_interval_for mem_capturer = pos (5 * second)
default_interval_for file_change_capturer = pos (15 * second)
default_interval_for disk_capturer = pos (30 * second)
default_interval_for persist_capturer = pos (600 * second)
default_interval_for other_capturer = pos (5 * second)

-- `none` is a nil capturer.
pub record CapturerSchedule : Type 0 where
  pub capturer : Option CapturerKind
  pub interval : ℤ

-- DefaultSchedules; a nil capturer has none of the types.
unfoldable pub default_schedules : List (Option CapturerKind) → List CapturerSchedule
default_schedules [] = []
default_schedules (none ∷ cs) =
    record { capturer = none; interval = default_interval_for other_capturer }
    ∷ default_schedules cs
default_schedules (some c ∷ cs) =
    record { capturer = some c; interval = default_interval_for c } ∷ default_schedules cs

-- The check of Run for a nil capturer, from the index on.
unfoldable pub nil_capturer_error : ℕ → List CapturerSchedule → Option Text
nil_capturer_error i [] = none
nil_capturer_error i (sc ∷ schedules) = elim sc.capturer [
  | none ↦ some (bytes "edr agent: schedule " ++ decimal i ++ bytes " capturer is nil")
  | some c ↦ nil_capturer_error (suc i) schedules
]

-- The errors with which Run returns at once.
unfoldable pub start_error : List CapturerSchedule → Option Text
start_error [] = some (bytes "edr agent: schedules is empty")
start_error (sc ∷ schedules) = nil_capturer_error 0 (sc ∷ schedules)

-- The size of the channel that Run makes for `queueSize`.
unfoldable pub queue_capacity : ℤ → ℤ
queue_capacity size = if is_nonpos size then pos 64 else size

-- `if interval <= 0 { interval = 5 * time.Second }`
abbrev pub or_five_seconds : ℤ → ℤ
or_five_seconds interval = if is_nonpos interval then pos (5 * second) else interval

-- The interval that runSchedule takes, with the agent's default.
unfoldable pub schedule_interval : ℤ → CapturerSchedule → ℤ
schedule_interval default_interval sc =
    or_five_seconds (if is_nonpos sc.interval then default_interval else sc.interval)

module _ {F E : Type 0} where
  -- NewCollectAgent, with os.Hostname(), the zone of time.Now() and newSessionID()
  unfoldable pub new_collect_agent : Text → Text → Text → CollectAgent F E
  new_collect_agent host tz session = record {
    default_interval = pos (3 * second);
    verbose = false;
    host_name = host;
    timezone = tz;
    session_id = session;
    sinks = [];
    pipeline = none;
    errs = [];
    sink_stats = [];
    queue_drops = 0;
    printed = [];
  }

  -- Run's repair of the default interval
  unfoldable pub run_defaults : CollectAgent F E → CollectAgent F E
  run_defaults a = record a { default_interval = or_five_seconds a.default_interval }

  -- (*CollectAgent).AddSink
  unfoldable pub add_sink : Option (Sink F E) → CollectAgent F E → CollectAgent F E
  add_sink none a = a
  add_sink (some s) a = record a { sinks = a.sinks ++ some s ∷ [] }

  -- AlertPipeline{} and ResponderPipeline{}
  abbrev pub some_pipeline : Option (AlertPipeline F E) → AlertPipeline F E
  some_pipeline none = record { detector = none; router = none; responder = none }
  some_pipeline (some p) = p

  abbrev pub some_responders : Option (ResponderPipeline F E) → ResponderPipeline F E
  some_responders none = []
  some_responders (some r) = r

  -- (*CollectAgent).AddResponder
  unfoldable pub add_responder : Option (Responder F E) → CollectAgent F E → CollectAgent F E
  add_responder none a = a
  add_responder (some r) a =
      let p = some_pipeline a.pipeline in
      let rs = some_responders p.responder in
      record a { pipeline = some (record p { responder = some (rs ++ some r ∷ []) }) }
