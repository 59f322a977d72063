-- ===== src/Detection/Ioc/Matcher.antt =====
-- iocMatcher of ioc.go.
pub mod Matches
use mini_edr.Prelude.Strings.{to_lower, trim_space, contains}
use mini_edr.Prelude.{
  Text, text_eq, bytes, not, ◌&&◌, List, [], ◌∷◌, Option, none, some, GoMap, has, insert, is_empty,
  if◌then◌else◌,
}
use mini_edr.Capturer.Info.{ProcMeta}
use mini_edr.Detection.Ioc.{IocConfig, has_no_indicators}

pub record IocMatcher : Type 0 where
  pub proc_names : List Text
  pub proc_paths : List Text
  pub proc_cmdlines : List Text
  pub file_paths : List Text
  pub remote_ips : GoMap Text (Unit {0})

unfoldable pub ip_set : List Text → GoMap Text (Unit {0}) → GoMap Text (Unit {0})
ip_set [] set = set
ip_set (ip ∷ ips) set = ip_set ips (insert ip tt set)

unfoldable pub new_ioc_matcher : IocConfig → Option IocMatcher
new_ioc_matcher cfg =
    if has_no_indicators cfg
    then none
    else some (record {
      proc_names = cfg.process_names;
      proc_paths = cfg.process_paths;
      proc_cmdlines = cfg.process_cmdlines;
      file_paths = cfg.file_paths;
      remote_ips = ip_set cfg.remote_ips [];
    })

-- The first indicator that is not empty and stands in the text; none is "".
unfoldable pub find_indicator : List Text → Text → Text
find_indicator [] s = []
find_indicator (ind ∷ inds) s =
    if not (is_empty ind) && contains s ind then ind else find_indicator inds s

-- The indicator and the field that it was found in.
unfoldable pub match_process : IocMatcher → ProcMeta → Text × Text
match_process m p =
    let by_name = find_indicator m.proc_names (to_lower p.name) in
    let by_exe = find_indicator m.proc_paths (to_lower p.exe) in
    let by_cmdline = find_indicator m.proc_cmdlines (to_lower p.cmdline) in
    if not (is_empty by_name)
    then (by_name, bytes "name")
    else if not (is_empty by_exe)
    then (by_exe, bytes "exe")
    else if not (is_empty by_cmdline)
    then (by_cmdline, bytes "cmdline")
    else ([], [])

unfoldable pub match_file : IocMatcher → Text → Text
match_file m path = find_indicator m.file_paths (to_lower path)

unfoldable pub match_remote_ip : IocMatcher → Text → Text
match_remote_ip m ip =
    let key = to_lower (trim_space ip) in
    if is_empty key then [] else if has key m.remote_ips then key else []
