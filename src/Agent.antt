-- ===== src/Agent.antt =====
-- CollectAgent of agent/agent.go: the sinks with their statistics, and the alert pipeline. A mutex makes
-- processInfo one step; reflect.TypeOf(s).Name() is a field of the sink.
pub mod Accounts
pub mod Queue
pub mod Capture
pub mod SetUp
use mini_edr.Prelude.Strings.{decimal}
use mini_edr.Prelude.{
  ℕ, suc, ℤ, Text, text_eq, bytes, Bool, not, ◌&&◌, List, [], ◌∷◌, ◌++◌, Option, none, some, GoMap,
  lookup, insert, length, is_empty, if◌then◌else◌, Float64,
}
use mini_edr.Prelude.World.{World}
use mini_edr.Capturer.Info.{InfoData}
use mini_edr.Pipeline.{AlertPipeline, process}

-- A TelemetrySink that is not nil.
pub record Sink (F E : Type 0) : Type 0 where
  pub name : Text
  pub consume : InfoData F → World E → Option Text × World E

pub record SinkStat : Type 0 where
  pub success : ℕ
  pub failure : ℕ
  pub last_err : Option Text

abbrev pub zero_stat : SinkStat
zero_stat = record { success = 0; failure = 0; last_err = none }

-- `none` is a nil sink or a nil pipeline; `printed` is what has been written to Out.
pub record CollectAgent (F E : Type 0) : Type 0 where
  pub default_interval : ℤ
  pub verbose : Bool
  pub host_name : Text
  pub timezone : Text
  pub session_id : Text
  pub sinks : List (Option (Sink F E))
  pub pipeline : Option (AlertPipeline F E)
  pub errs : List Text
  pub sink_stats : GoMap Text SinkStat
  pub queue_drops : ℕ
  pub printed : List Text

-- fmt.Fprintf(a.Out, "[%s] <what>%v\n", name, text)
abbrev pub line : Text → Text → Text → Text
line name what text = bytes "[" ++ name ++ bytes "] " ++ what ++ text ++ bytes "\n"

-- The statistics after one more outcome.
unfoldable pub count_outcome : Option Text → SinkStat → SinkStat
count_outcome (some err) stat = record stat { failure = suc stat.failure; last_err = some err }
count_outcome none stat = record stat { success = suc stat.success; last_err = none }

-- The statistics under a name, a new entry if there is none.
unfoldable pub stat_of : Text → GoMap Text SinkStat → SinkStat
stat_of name stats = elim (lookup name stats) [ some stat ↦ stat | none ↦ zero_stat ]

module _ {F E : Type 0} where
  unfoldable pub print : Text → CollectAgent F E → CollectAgent F E
  print text a = record a { printed = a.printed ++ text ∷ [] }

  -- (*CollectAgent).recordErr
  unfoldable pub record_err : Option Text → CollectAgent F E → CollectAgent F E
  record_err none a = a
  record_err (some err) a = record a { errs = a.errs ++ err ∷ [] }

  -- (*CollectAgent).firstErrorOr
  unfoldable pub first_error_or : CollectAgent F E → Option Text → Option Text
  first_error_or a fallback = elim a.errs [ [] ↦ fallback | err ∷ errs ↦ some err ]

  -- (*CollectAgent).recordSinkResult
  unfoldable pub record_sink_result : Sink F E → Option Text → CollectAgent F E → CollectAgent F E
  record_sink_result s err a =
      let stat = count_outcome err (stat_of s.name a.sink_stats) in
      record_err err (record a { sink_stats = insert s.name stat a.sink_stats })

  unfoldable pub print_sink_error : Text → Option Text → CollectAgent F E → CollectAgent F E
  print_sink_error name none a = a
  print_sink_error name (some err) a = print (line name (bytes "sink error: ") err) a

  -- The loop of processInfo over the sinks.
  unfoldable pub consume_all :
      Text
      → InfoData F
      → List (Option (Sink F E))
      → CollectAgent F E
      → World E
      → CollectAgent F E × World E
  consume_all name info [] a w = (a, w)
  consume_all name info (none ∷ sinks) a w = consume_all name info sinks a w
  consume_all name info (some s ∷ sinks) a w =
      let (err, w') = s.consume info w in
      consume_all name info sinks (record_sink_result s err (print_sink_error name err a)) w'

  -- The loop of processInfo over the errors of the responders.
  unfoldable pub record_errs : Text → List Text → CollectAgent F E → CollectAgent F E
  record_errs name [] a = a
  record_errs name (err ∷ errs) a =
      record_errs name errs
        (record_err (some err) (print (line name (bytes "responder error: ") err) a))

  unfoldable pub print_alerts : {A : Type 0} → Text → List A → CollectAgent F E → CollectAgent F E
  print_alerts name alerts a =
      if not (is_empty alerts) && a.verbose
      then print (line name (bytes "alerts: ") (decimal (length alerts))) a
      else a

module _ {F E : Type 0} ⦃fl : Float64 F⦄ where
  -- processInfo behind the sinks.
  unfoldable pub run_pipeline :
      Text
      → InfoData F
      → Option (AlertPipeline F E)
      → CollectAgent F E
      → World E
      → CollectAgent F E × World E
  run_pipeline name info none a w = (a, w)
  run_pipeline name info (some p) a w =
      let (alerts, errs, p', w') = process p info w in
      (print_alerts name alerts (record_errs name errs (record a { pipeline = some p' })), w')

  -- (*CollectAgent).processInfo
  unfoldable pub process_info :
      Text → InfoData F → CollectAgent F E → World E → CollectAgent F E × World E
  process_info name info a w =
      let (a', w') = consume_all name info a.sinks a w in run_pipeline name info a'.pipeline a' w'
