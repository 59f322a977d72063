-- ===== src/EdrAgent.antt =====
-- EDRAgent of agent.go, which captures and prints without sinks or alerts: the checks of Run, the
-- interval of a schedule, and captureOnce. What it prints is a text, and `rfc3339` is the layout of
-- Time.Format.
use mini_edr.Prelude.Strings.{texts}
use mini_edr.Prelude.World.{World, time_now}
use mini_edr.Prelude.Fallible.{Fallible, value, failure}
use mini_edr.Prelude.{
  ℤ, pos, is_nonpos, Text, bytes, Bool, false, List, [], ◌∷◌, ◌++◌, Option, none, some, is_empty,
  if◌then◌else◌,
}
use mini_edr.Capturer.Info.{Time, InfoData}
use mini_edr.Agent.SetUp.{or_five_seconds}
use mini_edr.Agent.Capture.{Capturer}

-- A schedule: a capturer, which may be nil, and its interval
pub record Schedule (S F E : Type 0) : Type 0 where
  pub capturer : Option (Capturer S F E)
  pub interval : ℤ

pub record EdrAgent (S F E : Type 0) : Type 0 where
  pub schedules : List (Schedule S F E)
  pub default_interval : ℤ
  pub is_verbose : Bool

-- NewEDRAgent
unfoldable pub new_edr_agent : {S F E : Type 0} → List (Schedule S F E) → EdrAgent S F E
new_edr_agent schedules = record {
  schedules = schedules;
  default_interval = pos 3000000000;
  is_verbose = false;
}

module _ {S F E : Type 0} where
  -- The start of Run: an error, or the agent with its default interval
  unfoldable pub start_edr_agent : EdrAgent S F E → Fallible (EdrAgent S F E)
  start_edr_agent a =
      if is_empty a.schedules
      then failure (bytes "edr agent: schedules is empty")
      else value (record a { default_interval = or_five_seconds a.default_interval })

  -- The interval of runSchedule
  unfoldable pub edr_interval : EdrAgent S F E → Schedule S F E → ℤ
  edr_interval a sc =
      or_five_seconds (if is_nonpos sc.interval then a.default_interval else sc.interval)

  -- The verbose text of a report, or the error of GetVerboseInfo
  unfoldable pub edr_verbose : Capturer S F E → S → InfoData F → Fallible Text
  edr_verbose c s info = elim c.get_verbose_info [ none ↦ value info.summary | some f ↦ f s ]

  -- `[%s] title%s`, and a line feed
  unfoldable pub edr_line : Capturer S F E → Text → Text → Text
  edr_line c title text = texts (bytes "[" ∷ c.name ∷ bytes "] " ∷ title ∷ text ∷ bytes "\n" ∷ [])

  module _ (rfc3339 : Time → Text) where
    -- The end of captureOnce for a verbose agent: the error, and what is printed
    unfoldable pub print_verbose :
        Capturer S F E → Fallible Text → World E → Option Text × Text × World E
    print_verbose c (failure err) w = (some err, edr_line c (bytes "getverboseinfo error: ") err, w)
    print_verbose c (value text) w =
        let (now, w') = time_now w in
        (
          none,
          texts (
              bytes "\n==== "
              ∷ c.name
              ∷ bytes " (verbose) @ "
              ∷ rfc3339 now
              ∷ bytes " ====\n"
              ∷ text
              ∷ bytes "\n"
              ∷ []),
          w',
        )

    -- captureOnce after GetInfo
    unfoldable pub print_info :
        Bool → Capturer S F E → S → Fallible (InfoData F) → World E → Option Text × Text × World E
    print_info is_verbose c s (failure err) w =
        (some err, edr_line c (bytes "getinfo error: ") err, w)
    print_info is_verbose c s (value info) w =
        let (err, text, w') = print_verbose c (edr_verbose c s info) w in
        let line = edr_line c [] info.summary in
        if is_verbose then (err, line ++ text, w') else (none, line, w)

    -- captureOnce after Capture
    unfoldable pub print_captured :
        Bool → Capturer S F E → Option Text × S × World E → (Option Text × Text × World E) × S
    print_captured is_verbose c (some err, s, w) =
        ((some err, edr_line c (bytes "capture error: ") err, w), s)
    print_captured is_verbose c (none, s, w) =
        let (info, w') = c.get_info s w in (print_info is_verbose c s info w', s)

    -- captureOnce: the error, what is printed, the world, and the capturer's state
    unfoldable pub edr_capture_once :
        EdrAgent S F E → Capturer S F E → S → World E → (Option Text × Text × World E) × S
    edr_capture_once a c s w = print_captured a.is_verbose c (c.capture s w)

    -- The first capture of runSchedule
    unfoldable pub first_capture :
        EdrAgent S F E → Schedule S F E → S → World E → (Option Text × Text × World E) × S
    first_capture a sc s w = elim sc.capturer [
      | none ↦ ((some (bytes "edr agent: capturer is nil"), [], w), s)
      | some c ↦ edr_capture_once a c s w
    ]
