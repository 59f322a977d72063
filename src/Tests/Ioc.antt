-- ===== src/Tests/Ioc.antt =====
-- ioc.go and response_actions.go: runs and instances.
use mini_edr.Prelude.{
  ℤ, pos, Text, text_eq, bytes, Bool, false, List, [], ◌∷◌, ◌++◌, Option, none, some, ◌≡◌, refl,
  int_floats, if◌then◌else◌, ◌==◌, int_eq, is_empty, take,
}
use mini_edr.Capturer.Info.{InfoData, ProcMeta, proc_ptrs}
use mini_edr.Detection.Types.{Alert, scalar, ints, int}
use mini_edr.Detection.Ioc.Matcher.{IocMatcher}
use mini_edr.Detection.Ioc.Rule.{eval_ioc}
use mini_edr.Detection.Ioc.Rule.Limit.{all_matches, eval_ioc-take}
use mini_edr.Response.Killer.{ProcessKiller, kill_handle, extract_alert_pids}
use mini_edr.Response.Killer.Targets.{journal, attempted, kill_handle-attempted}
use mini_edr.Tests.Samples.{blank_info, blank_alert, world_at}

abbrev names : List Text
names = bytes " Evil " ∷ bytes "" ∷ bytes "evil" ∷ bytes "nc" ∷ []

abbrev matcher : IocMatcher
matcher = record {
  proc_names = bytes "evil" ∷ [];
  proc_paths = [];
  proc_cmdlines = bytes "curl" ∷ [];
  file_paths = [];
  remote_ips = [];
}

abbrev miner : ProcMeta
miner = record {
  pid = pos 42;
  ppid = pos 1;
  name = bytes "EVILd";
  exe = bytes "/bin/x";
  cmdline = [];
  create_time = 0;
}

abbrev started : InfoData ℤ
started = record blank_info {
  fields = some ((bytes "proc.new", proc_ptrs (none ∷ some miner ∷ [])) ∷ []);
}

eval_ioc-take_example :
    eval_ioc (some matcher) started ≡ take 50 (all_matches (some matcher) started)
eval_ioc-take_example = eval_ioc-take (some matcher) started

abbrev fails_on_two : ℤ → Option Text
fails_on_two pid = if pid == pos 2 then some (bytes "denied") else none

abbrev killer : Bool → ProcessKiller (List ℤ)
killer dry = record {
  dry_run = dry;
  kill_fn = some (journal fails_on_two);
  find_process = journal (λ pid. none);
  kill_process = journal (λ pid. none);
}

abbrev suspects : Alert ℤ
suspects = record blank_alert {
  evidence =
      some ((bytes "pid", scalar (int (pos 1))) ∷ (bytes "pids", ints (pos 2 ∷ pos 3 ∷ [])) ∷ []);
}

kill_handle-attempted_example :
    ((kill_handle (killer false) suspects (world_at 0 [])).1.outside
      ≡ [] ++ (attempted fails_on_two (extract_alert_pids suspects.evidence)).0)
    × ((kill_handle (killer false) suspects (world_at 0 [])).0 ≡ (
        if is_empty (extract_alert_pids suspects.evidence)
        then some (bytes "process_kill: no pid in alert evidence")
        else (attempted fails_on_two (extract_alert_pids suspects.evidence)).1))
kill_handle-attempted_example =
    kill_handle-attempted (killer false) fails_on_two suspects (world_at 0 []) refl refl
