-- ===== src/Agent/Capture.antt =====
-- captureOnce of agent/agent.go up to the queue. `rfc3339` is the layout of Time.Format; `os` and
-- `arch` are runtime.GOOS and runtime.GOARCH.
use mini_edr.Prelude.World.{World, time_now}
use mini_edr.Prelude.Fallible.{Fallible, value, failure}
use mini_edr.Prelude.{
  ◌/◌, ◌%◌, ℤ, pos, pos_part, is_nonpos, Text, bytes, not, ◌&&◌, [], ◌++◌, Option, none, some,
  is_empty, if◌then◌else◌, Float64,
}
use mini_edr.Capturer.Info.{Time, is_zero, TelemetryMeta, InfoData}
use mini_edr.Agent.{CollectAgent, line, print}
use mini_edr.Agent.Queue.{QueueItem}

-- A capturer.Capturer with the state `S`: CapturerName, Capture, GetInfo, and GetVerboseInfo if it has
-- one.
pub record Capturer (S F E : Type 0) : Type 0 where
  pub name : Text
  pub capture : S → World E → Option Text × S × World E
  pub get_info : S → World E → Fallible (InfoData F) × World E
  pub get_verbose_info : Option (S → Fallible Text)

pub record Platform : Type 0 where
  pub os : Text
  pub arch : Text

abbrev pub agent_version : Text
agent_version = bytes "dev"

-- firstNonEmpty
unfoldable pub first_non_empty : Text → Text → Text
first_non_empty a b = if not (is_empty a) then a else b

unfoldable pub standard_time : {E : Type 0} → Time → World E → Time × World E
standard_time t w = if is_zero t then time_now w else (t, w)

module _ {F : Type 0} ⦃fl : Float64 F⦄ where
  -- interval.Seconds() of an interval that is not negative
  abbrev pub seconds : ℤ → F
  seconds d =
      fl.add (fl.of_int (pos (pos_part d / 1000000000)))
        (fl.div (fl.of_int (pos (pos_part d % 1000000000))) (fl.of_int (pos 1000000000)))

  unfoldable pub standard_interval : F → ℤ → F
  standard_interval sec interval =
      if fl.eq sec (fl.of_int (pos 0)) && not (is_nonpos interval) then seconds interval else sec

  -- "standardize telemetry meta"
  unfoldable pub standardize :
      {E : Type 0}
      → Platform
      → CollectAgent F E
      → Text
      → ℤ
      → TelemetryMeta F
      → World E
      → TelemetryMeta F × World E
  standardize platform a name interval m w =
      let (at, w') = standard_time m.captured_at w in
      (
        record m {
          host = first_non_empty m.host a.host_name;
          agent_version = first_non_empty m.agent_version agent_version;
          agent_build = first_non_empty m.agent_build agent_version;
          session = first_non_empty m.session a.session_id;
          timezone = first_non_empty m.timezone a.timezone;
          os = first_non_empty m.os platform.os;
          arch = first_non_empty m.arch platform.arch;
          capturer = first_non_empty m.capturer name;
          interval_sec = standard_interval m.interval_sec interval;
          captured_at = at;
        },
        w',
      )

-- What captureOnce has when it comes to the queue: an error with which it returns, or an item.
pub record Prepared (S F E : Type 0) : Type 0 where
  pub err : Option Text
  pub item : Option (QueueItem F)
  pub state : S
  pub agent : CollectAgent F E
  pub world : World E

module _ {S F E : Type 0} where
  -- Printing an error and returning it
  abbrev pub fail_with : Text → Text → Text → S → CollectAgent F E → World E → Prepared S F E
  fail_with name what err st a w = record {
    err = some err;
    item = none;
    state = st;
    agent = print (line name what err) a;
    world = w;
  }

  abbrev pub ready : QueueItem F → S → CollectAgent F E → World E → Prepared S F E
  ready item st a w = record { err = none; item = some item; state = st; agent = a; world = w }

  -- The text for the verbose output: the summary if there is no GetVerboseInfo.
  unfoldable pub verbose_text : Capturer S F E → S → Text → Fallible Text
  verbose_text c st summary = elim c.get_verbose_info [ none ↦ value summary | some f ↦ f st ]

  -- `if a.Verbose { … }` once the text is there
  unfoldable pub show_verbose :
      (Time → Text) → QueueItem F → Fallible Text → S → CollectAgent F E → World E → Prepared S F E
  show_verbose rfc3339 item (failure err) st a w =
      fail_with item.name (bytes "getverboseinfo error: ") err st a w
  show_verbose rfc3339 item (value text) st a w =
      let (now, w') = time_now w in
      let head = bytes "\n==== " ++ item.name ++ bytes " (verbose) @ " ++ rfc3339 now in
      ready item st (print (head ++ bytes " ====\n" ++ text ++ bytes "\n") a) w'

module _ {S F E : Type 0} ⦃fl : Float64 F⦄ where
  -- captureOnce after GetInfo has returned
  unfoldable pub finish_capture :
      Platform
      → (Time → Text)
      → Capturer S F E
      → ℤ
      → Fallible (InfoData F)
      → S
      → CollectAgent F E
      → World E
      → Prepared S F E
  finish_capture platform rfc3339 c interval (failure err) st a w =
      fail_with c.name (bytes "getinfo error: ") err st a w
  finish_capture platform rfc3339 c interval (value info) st a w =
      let (meta, w') = standardize platform a c.name interval info.meta w in
      let item : QueueItem F = record { name = c.name; info = record info { meta = meta } } in
      let a' = print (line c.name [] info.summary) a in
      if a.verbose
      then show_verbose rfc3339 item (verbose_text c st info.summary) st a' w'
      else ready item st a' w'

  -- captureOnce after Capture has returned
  unfoldable pub capture_info :
      Platform
      → (Time → Text)
      → Capturer S F E
      → ℤ
      → Option Text
      → S
      → CollectAgent F E
      → World E
      → Prepared S F E
  capture_info platform rfc3339 c interval (some err) st a w =
      fail_with c.name (bytes "capture error: ") err st a w
  capture_info platform rfc3339 c interval none st a w =
      let (info, w') = c.get_info st w in finish_capture platform rfc3339 c interval info st a w'

  -- (*CollectAgent).captureOnce up to the queue
  unfoldable pub prepare :
      Platform
      → (Time → Text)
      → Capturer S F E
      → ℤ
      → S
      → CollectAgent F E
      → World E
      → Prepared S F E
  prepare platform rfc3339 c interval st a w =
      let (err, st', w') = c.capture st w in capture_info platform rfc3339 c interval err st' a w'
