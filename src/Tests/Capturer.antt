-- ===== src/Tests/Capturer.antt =====
-- capturer/conn.go, capturer/process.go and capturer/file.go: runs and instances.
use mini_edr.Prelude.World.{time_now}
use mini_edr.Prelude.Fallible.{Fallible, value, failure}
use mini_edr.Prelude.Strings.{
  to_lower, lower_byte, contains, trim_space, trim_left, is_space, has_prefix,
}
use mini_edr.Prelude.Int.{int_beq}
use mini_edr.Prelude.{
  ℕ, ℤ, pos, int_eq, Text, text_eq, text_beq, bytes, Bool, true, false, List, [], ◌∷◌, none, some,
  lookup, insert, has, Keyed, keys_missing, gather, keep, ◌≡◌, ◌↔◌, refl, inl, arith, Any, Among,
  int_floats,
}
use mini_edr.Capturer.Info.{ConnId, FileMeta, FileEvent, FileMeta, ProcMeta}
use mini_edr.Capturer.Conn.{ConnectionStat, ConnSnapshot, ConnCapturer, conn_id_eq}
use mini_edr.Capturer.Conn.Changes.{Replayed, capture_all, live_of, captures-Replayed}
use mini_edr.Capturer.Process.{
  ProcReading, ProcSnapshot, proc_map, proc_snapshot, proc_meta, proc_report, new_procs, started_at,
  proc_fields,
}
use mini_edr.Capturer.Files.{
  FileChangeSnapshot, FileChangeCapturer, WalkEntry, scan_roots, walk_entries, root_file, accept,
  ext_allow, clean_extension, ext_loop, is_listed, is_skipped, walk_error, add_file,
}
use mini_edr.Capturer.Files.Changes.{capture_files, take_files, scan_files, file_snapshot}
use mini_edr.Capturer.Files.Changes.Exact.{IsChange, capture_files-IsExact}
use mini_edr.Detection.Ioc.Matcher.{IocMatcher, match_process, find_indicator}
use mini_edr.Detection.Ioc.Rule.{
  eval_ioc, extract_proc_meta, extract_file_events, extract_conn_ids, process_alert,
}
use mini_edr.Detection.Ioc.Rule.Started.{started-Reported}
use mini_edr.Response.Killer.{extract_alert_pids}
use mini_edr.Tests.Samples.{world_at, blank_meta}

abbrev conn_to : Text → ConnectionStat
conn_to ip = record {
  family = 2;
  type_of = 1;
  laddr = record { ip = bytes "10.0.0.1"; port = 4000 };
  raddr = record { ip = ip; port = 443 };
  status = bytes "ESTABLISHED";
  pid = pos 7;
}

abbrev conn_id_to : Text → ConnId
conn_id_to ip = record {
  family = 2;
  type_of = 1;
  pid = pos 7;
  status = bytes "ESTABLISHED";
  lip = bytes "10.0.0.1";
  lport = 4000;
  rip = ip;
  rport = 443;
}

abbrev first_conns : ConnSnapshot
first_conns = record {
  at = 5;
  live = (conn_id_to (bytes "1.1.1.1"), conn_to (bytes "1.1.1.1")) ∷ [];
  new_ids = [];
  dead_ids = [];
}

abbrev conn_capturer : ConnCapturer ℕ
conn_capturer = record {
  connections_fn = none;
  kind = bytes "inet";
  prev = none;
  curr = some first_conns;
}

abbrev outcomes : List (Fallible (List ConnectionStat))
outcomes =
    value (conn_to (bytes "2.2.2.2") ∷ [])
    ∷ failure (bytes "denied")
    ∷ value (conn_to (bytes "2.2.2.2") ∷ conn_to (bytes "3.3.3.3") ∷ [])
    ∷ []

captures-Replayed_example :
    Replayed
      (λ j. has j first_conns.live ≡ true)
      (capture_all conn_capturer outcomes (world_at 0 0)).0
      (conn_id_to (bytes "3.3.3.3"))
    ↔ (has
          (conn_id_to (bytes "3.3.3.3"))
          (live_of (capture_all conn_capturer outcomes (world_at 0 0)).1.curr)
        ≡ true)
captures-Replayed_example =
    captures-Replayed conn_capturer first_conns outcomes (world_at 0 0)
      (conn_id_to (bytes "3.3.3.3")) refl

abbrev reading : ProcReading
reading = record {
  pid = pos 42;
  name = bytes "EVILd";
  exe = bytes "/bin/x";
  cmdline = [];
  ppid = pos 1;
  create_time_ms = pos 0;
}

abbrev no_processes : ProcSnapshot
no_processes = record { at = 0; running = []; new_pids = []; dead_pids = [] }

abbrev matcher : IocMatcher
matcher = record {
  proc_names = bytes "evil" ∷ [];
  proc_paths = [];
  proc_cmdlines = [];
  file_paths = [];
  remote_ips = [];
}

abbrev started : ProcMeta
started = record {
  pid = pos 42;
  ppid = pos 1;
  name = bytes "EVILd";
  exe = bytes "/bin/x";
  cmdline = [];
  create_time = 0;
}

abbrev as_they_stand : List ℤ → List ℤ
as_they_stand pids = pids

started-Reported_example :
    Any
      (λ a. extract_alert_pids a.evidence ≡ pos 42 ∷ [])
      (eval_ioc (some matcher) (
        proc_report {F = ℤ}
          (λ t. [])
          (proc_snapshot as_they_stand (some no_processes) 9 (proc_map (some reading ∷ []) []))))
unfolding proc_map proc_meta started_at proc_snapshot lookup insert contains to_lower keys_missing
    proc_report proc_fields gather extract_proc_meta process_alert match_process find_indicator keep
    text_beq new_procs int_beq extract_file_events extract_conn_ids has_prefix lower_byte
started-Reported_example =
    started-Reported ℤ as_they_stand (λ t. []) no_processes 9 (some reading ∷ []) (pos 42) started
      matcher (λ xs x. (λ h. h, λ h. h)) (omega arith) (omega arith) refl refl
      (inl (inl (λ h. ground (arith, h), refl)))

abbrev size_of : ℕ → FileMeta
size_of n = record { size = pos n; mode = 420; mod_time = 3 }

abbrev files_before : FileChangeSnapshot ℤ
files_before = record {
  at = 1;
  files = (bytes "/w/a.txt", size_of 1) ∷ (bytes "/w/b.txt", size_of 1) ∷ [];
  events = [];
  meta = blank_meta;
}

abbrev entry_of : Text → ℕ → WalkEntry
entry_of path n = record {
  path = path;
  is_failed = false;
  is_dir = false;
  file_info = some (size_of n);
}

abbrev file_capturer : FileChangeCapturer ℤ ℕ
file_capturer = record {
  paths = bytes "/w" ∷ [];
  extensions = bytes " TXT" ∷ [];
  max_files = pos 0;
  lstat = λ root w. (none, w);
  walk_fn = some (λ root w. (
    record {
      entries =
          entry_of (bytes "/w/a.txt") 2
          ∷ entry_of (bytes "/w/c.txt") 1
          ∷ entry_of (bytes "/w/d.go") 1
          ∷ [];
      err = none;
    },
    w,
  ));
  prev = none;
  curr = some files_before;
}

abbrev in_order : (FileEvent → FileEvent → Bool) → List FileEvent → List FileEvent
in_order less events = events

abbrev files_now : FileChangeSnapshot ℤ
files_now =
    file_snapshot in_order (some files_before) 1000
      ((bytes "/w/a.txt", size_of 2) ∷ (bytes "/w/c.txt", size_of 1) ∷ [])

abbrev deleted_b : FileEvent
deleted_b = record {
  at = 1000;
  type_of = bytes "deleted";
  path = bytes "/w/b.txt";
  file_meta = some (size_of 1);
}

capture_files-IsExact_example :
    Keyed files_now.files
    × (Among deleted_b files_now.events
        ↔ IsChange files_now.at files_before.files files_now.files deleted_b)
unfolding capture_files scan_files scan_roots take_files root_file walk_error is_skipped time_now
    walk_entries add_file accept ext_allow clean_extension to_lower trim_space has_prefix is_listed
    text_beq ext_loop insert lookup trim_left is_space
capture_files-IsExact_example =
    capture_files-IsExact in_order file_capturer (world_at 0 0) files_before files_now deleted_b
      (λ xs. (λ h. h, λ h. h)) refl (refl, (refl, tt)) refl refl
