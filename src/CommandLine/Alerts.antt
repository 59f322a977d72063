-- ===== src/CommandLine/Alerts.antt =====
-- buildAlertPipeline of cli/main.go. `encode` is the JSON of an alert.
use mini_edr.Prelude.World.{World}
use mini_edr.Prelude.Fallible.{Fallible}
use mini_edr.Prelude.{
  ℤ, pos, Text, bytes, Bool, [], ◌∷◌, ◌++◌, Option, none, some, is_empty, if◌then◌else◌, Float64,
}
use mini_edr.Detection.Types.{Alert}
use mini_edr.Detection.Rules.{default_rules}
use mini_edr.Detection.Ioc.{IocConfig, has_no_indicators}
use mini_edr.Detection.Ioc.Rule.{rule_ioc_match}
use mini_edr.Detection.Responders.{Responder, ResponderPipeline, log_responder}
use mini_edr.Files.Disk.{Disk}
use mini_edr.Files.Rotating.{RotatingFile, new_alert_file_responder, alert_handle}
use mini_edr.Response.Killer.{Action, ProcessKiller, kill_handle}
use mini_edr.Pipeline.{AlertPipeline}

-- The outside of the program: the standard output, the disk with the state of the alert file, and
-- the processes.
pub record Host (P : Type 0) : Type 0 where
  pub stdout : Text
  pub disk : Disk
  pub alert_file : RotatingFile
  pub processes : P

-- os.Stdout.Write, os.FindProcess and (*os.Process).Kill, each with what it may change
pub record HostCalls (P : Type 0) : Type 0 where
  pub write_stdout : Text → Text → Option Text × Text
  pub find_process : ℤ → P → Option Text × P
  pub kill_process : ℤ → P → Option Text × P

-- The flags that buildAlertPipeline takes
pub record AlertFlags : Type 0 where
  pub alerts_stdout : Bool
  pub alert_file : Text
  pub alert_file_max_bytes : ℤ
  pub response_kill : Bool
  pub response_kill_dry_run : Bool

module _ {P : Type 0} where
  abbrev pub print_line : HostCalls P → Text → World (Host P) → Option Text × World (Host P)
  print_line calls line w =
      let (err, out) = calls.write_stdout line w.outside.stdout in
      (err, record w { outside = record w.outside { stdout = out } })

  abbrev pub on_processes : (ℤ → P → Option Text × P) → Action (Host P)
  on_processes call pid w =
      let (err, processes) = call pid w.outside.processes in
      (err, record w { outside = record w.outside { processes = processes } })

  -- `&ProcessKillerResponder{DryRun: responseKillDry}`
  abbrev pub host_killer : HostCalls P → Bool → ProcessKiller (Host P)
  host_killer calls dry = record {
    dry_run = dry;
    kill_fn = none;
    find_process = on_processes calls.find_process;
    kill_process = on_processes calls.kill_process;
  }

  -- (*AlertFileResponder).Handle on the responder and the disk of the host
  abbrev pub handle_on_disk : Fallible Text → World (Host P) → Option Text × World (Host P)
  handle_on_disk encoded w =
      let h = w.outside in
      let (err, file, w') =
        alert_handle encoded h.alert_file
          (record { clock = w.clock; reads = w.reads; outside = h.disk }) in
      (
        err,
        record {
          clock = w'.clock;
          reads = w'.reads;
          outside = record h { alert_file = file; disk = w'.outside };
        },
      )

  -- NewAlertFileResponder, if the flag names a file
  unfoldable pub with_alert_file : AlertFlags → Host P → Host P
  with_alert_file flags h = if is_empty flags.alert_file then h else record h {
    alert_file = new_alert_file_responder flags.alert_file flags.alert_file_max_bytes;
  }

module _ {F P : Type 0} ⦃fl : Float64 F⦄ where
  unfoldable pub file_responder : (Alert F → Fallible Text) → Responder F (Host P)
  file_responder encode = record {
    name = bytes "alert_file";
    handle = λ a w. handle_on_disk (encode a) w;
  }

  unfoldable pub kill_responder : ProcessKiller (Host P) → Responder F (Host P)
  kill_responder r = record { name = bytes "process_kill"; handle = kill_handle r }

module _ {F P : Type 0} ⦃fl : Float64 F⦄ (calls : HostCalls P)
    (encode : Alert F → Fallible Text) where
  -- The responders, in order: the log, the file, and the process killer
  unfoldable pub chosen_responders : AlertFlags → ResponderPipeline F (Host P)
  chosen_responders flags =
      (if flags.alerts_stdout
        then some (log_responder encode (some (print_line calls))) ∷ []
        else [])
      ++ ((if is_empty flags.alert_file then [] else some (file_responder encode) ∷ [])
          ++ (if flags.response_kill
              then some (kill_responder (host_killer calls flags.response_kill_dry_run)) ∷ []
              else []))

  -- buildAlertPipeline; the rules are never empty, so the pipeline is never nil.
  unfoldable pub build_alert_pipeline :
      IocConfig → AlertFlags → Host P → AlertPipeline F (Host P) × Host P
  build_alert_pipeline ioc flags h =
      let responders = chosen_responders flags in
      (
        record {
          detector = some (record {
            rules =
                default_rules ++ (if has_no_indicators ioc then [] else rule_ioc_match ioc ∷ []);
            deduper = some (record { window = pos 30000000000; seen = [] });
            limiter = some (record {
              window = pos 30000000000;
              burst = pos 20;
              windows = record { count = []; reset = [] };
            });
            ids = record { source = none; calls = 0 };
          });
          router = none;
          responder = if is_empty responders then none else some responders;
        },
        with_alert_file flags h,
      )
