-- ===== src/Capturer/Process.antt =====
-- ProcCapturer of capturer/process.go. `sort_pids` is sort.Slice by `<` on identifiers, and `rfc3339`
-- the layout of Time.Format.
pub mod Started
pub mod Verbose
use mini_edr.Prelude.Strings.{decimal, decimal_ℤ}
use mini_edr.Prelude.World.{World, time_now}
use mini_edr.Prelude.Fallible.{Fallible, value, failure}
use mini_edr.Prelude.{
  ◌+◌, ◌-◌, ◌*◌, ℤ, pos_part, int_eq, is_nonpos, Text, text_eq, bytes, ltb, List, [], ◌∷◌, ◌++◌,
  map, Option, none, some, GoMap, lookup, insert, keys_missing, length, take, gather, join,
  is_empty, if◌then◌else◌, Float64,
}
use mini_edr.Capturer.Info.{
  Time, ProcMeta, Field, procs, InfoData, zero_meta, summary_only, count_float,
}

-- A process of the list that ProcessesFn returns, with what the getters return for it: on an error
-- the code keeps the value beside it.
pub record ProcReading : Type 0 where
  pub pid : ℤ
  pub name : Text
  pub exe : Text
  pub cmdline : Text
  pub ppid : ℤ
  pub create_time_ms : ℤ

pub record ProcSnapshot : Type 0 where
  pub at : Time
  pub running : GoMap ℤ ProcMeta
  pub new_pids : List ℤ
  pub dead_pids : List ℤ

-- ProcessesFn: the processes, `none` for a nil pointer, or an error, and the world after the call.
pub record ProcCapturer (E : Type 0) : Type 0 where
  pub processes_fn : Option (World E → Fallible (List (Option ProcReading)) × World E)
  pub prev : Option ProcSnapshot
  pub curr : Option ProcSnapshot

pub data ProcError : Type 0 where
  no_processes_fn : ProcError
  processes_failed : Text → ProcError

-- time.UnixMilli(ms) for ms > 0, and the zero time otherwise
unfoldable pub started_at : ℤ → Time
started_at ms = if is_nonpos ms then 0 else (62135596800000 + pos_part ms) * 1000000

unfoldable pub proc_meta : ProcReading → ProcMeta
proc_meta p = record {
  pid = p.pid;
  ppid = p.ppid;
  name = p.name;
  exe = p.exe;
  cmdline = p.cmdline;
  create_time = started_at p.create_time_ms;
}

-- The loop over the processes.
unfoldable pub proc_map : List (Option ProcReading) → GoMap ℤ ProcMeta → GoMap ℤ ProcMeta
proc_map [] m = m
proc_map (none ∷ list) m = proc_map list m
proc_map (some p ∷ list) m = proc_map list (insert p.pid (proc_meta p) m)

module _ (sort_pids : List ℤ → List ℤ) where
  -- The snapshot with its differences to the last one.
  unfoldable pub proc_snapshot : Option ProcSnapshot → Time → GoMap ℤ ProcMeta → ProcSnapshot
  proc_snapshot none at running = record {
    at = at;
    running = running;
    new_pids = [];
    dead_pids = [];
  }
  proc_snapshot (some last) at running = record {
    at = at;
    running = running;
    new_pids = sort_pids (keys_missing running last.running);
    dead_pids = sort_pids (keys_missing last.running running);
  }

  -- Capture after ProcessesFn has returned.
  unfoldable pub take_procs :
      {E : Type 0}
      → ProcCapturer E
      → Fallible (List (Option ProcReading))
      → World E
      → Option ProcError × ProcCapturer E × World E
  take_procs c (failure err) w = (some (processes_failed err), c, w)
  take_procs c (value list) w =
      let (at, w') = time_now w in
      let snap = proc_snapshot c.curr at (proc_map list []) in
      (none, record c { prev = c.curr; curr = some snap }, w')

  -- (*ProcCapturer).Capture
  unfoldable pub capture_procs :
      {E : Type 0} → ProcCapturer E → World E → Option ProcError × ProcCapturer E × World E
  capture_procs c w = elim c.processes_fn [
    | none ↦ (some no_processes_fn, c, w)
    | some f ↦ let (list, w') = f w in take_procs c list w'
  ]

-- The name of a new process in the summary; a process that is not in the map has the empty name.
unfoldable pub proc_example : GoMap ℤ ProcMeta → ℤ → Text
proc_example running pid =
    let nameless = bytes "pid=" ++ decimal_ℤ pid in
    elim (lookup pid running) [
      | none ↦ nameless
      | some m ↦
          if is_empty m.name
          then nameless
          else m.name ++ (bytes "(pid=" ++ (decimal_ℤ pid ++ bytes ")"))
    ]

-- The examples of new processes, three at most.
unfoldable pub proc_examples : ProcSnapshot → Text
proc_examples s =
    let examples = map (proc_example s.running) (take 3 s.new_pids) in
    if is_empty examples
    then []
    else bytes ", new=["
      ++ (join (bytes ", ") examples
          ++ (bytes "]"
              ++ (if ltb (length examples) (length s.new_pids)
                  then bytes "(+" ++ (decimal (length s.new_pids - length examples) ++ bytes ")")
                  else [])))

-- The new processes with their entries, two hundred at most.
unfoldable pub new_procs : ProcSnapshot → List ProcMeta
new_procs s = gather (λ pid. lookup pid s.running) (take 200 s.new_pids)

unfoldable pub proc_fields : ProcSnapshot → Option (GoMap Text Field)
proc_fields s =
    if is_empty s.new_pids then none else some ((bytes "proc.new", procs (new_procs s)) ∷ [])

module _ {F : Type 0} ⦃fl : Float64 F⦄ where
  unfoldable pub proc_report : (Time → Text) → ProcSnapshot → InfoData F
  proc_report rfc3339 s = record {
    summary =
        bytes "ProcSnapshot(at="
        ++ (rfc3339 s.at
            ++ (bytes ", procs="
                ++ (decimal (length s.running)
                    ++ (bytes ", new="
                        ++ (decimal (length s.new_pids)
                            ++ (bytes ", dead="
                                ++ (decimal (length s.dead_pids)
                                    ++ (proc_examples s ++ bytes ")"))))))));
    metrics = some (
        (bytes "proc.total", count_float s.running)
        ∷ (bytes "proc.new", count_float s.new_pids)
        ∷ (bytes "proc.dead", count_float s.dead_pids)
        ∷ []);
    fields = proc_fields s;
    meta = zero_meta;
  }

  -- (*ProcCapturer).GetInfo, which gives no error
  unfoldable pub proc_info : {E : Type 0} → (Time → Text) → ProcCapturer E → InfoData F
  proc_info rfc3339 c = elim c.curr [
    | none ↦ summary_only (bytes "ProcSnapshot(empty)")
    | some s ↦ proc_report rfc3339 s
  ]
