-- ===== src/Capturer/Process/Verbose.antt =====
-- GetVerboseInfo of ProcCapturer, capturer/process.go. `rfc3339` is the layout of Time.Format, and
-- `sort_pids` is sort.Slice by `<`.
use mini_edr.Prelude.Strings.{decimal, decimal_ℤ, texts, trim_suffix}
use mini_edr.Prelude.{
  ℕ, ◌-◌, ℤ, pos, Text, bytes, int_eq, leb, List, [], ◌∷◌, ◌++◌, map, take, length, is_empty,
  is_some, Bool, Option, none, some, GoMap, lookup, if◌then◌else◌,
}
use mini_edr.Capturer.Info.{Time, ProcMeta}
use mini_edr.Capturer.Since.{prev_total, more_text}
use mini_edr.Capturer.Process.{ProcSnapshot, ProcCapturer}

-- shorten
unfoldable pub shorten : Text → ℕ → Text
shorten s max =
    if leb max 0
    then s
    else if leb (length s) max
    then s
    else if leb max 3
    then take max s
    else take (max - 3) s ++ bytes "..."

-- procs[pid], which is the zero value for a process that is missing
unfoldable pub meta_or_zero : Option ProcMeta → ProcMeta
meta_or_zero (some m) = m
meta_or_zero none = record {
  pid = pos 0;
  ppid = pos 0;
  name = [];
  exe = [];
  cmdline = [];
  create_time = 0;
}

unfoldable pub new_line : (Time → Text) → ProcMeta → Text
new_line rfc3339 m = texts (
    bytes "- pid="
    ∷ decimal_ℤ m.pid
    ∷ bytes " ppid="
    ∷ decimal_ℤ m.ppid
    ∷ bytes " name="
    ∷ m.name
    ∷ bytes " exe="
    ∷ m.exe
    ∷ bytes " cmd="
    ∷ shorten m.cmdline 120
    ∷ bytes " started="
    ∷ rfc3339 m.create_time
    ∷ bytes "\n"
    ∷ [])

unfoldable pub dead_line : ℤ → ProcMeta → Text
dead_line pid m = texts (
    bytes "- pid="
    ∷ decimal_ℤ pid
    ∷ bytes " name="
    ∷ m.name
    ∷ bytes " exe="
    ∷ m.exe
    ∷ bytes " cmd="
    ∷ shorten m.cmdline 120
    ∷ bytes "\n"
    ∷ [])

-- c.prev.Procs, or nothing
unfoldable pub prev_procs : Option ProcSnapshot → GoMap ℤ ProcMeta
prev_procs none = []
prev_procs (some prev) = prev.running

module _ (sort_pids : List ℤ → List ℤ) where
  -- The first fifteen processes of a list, with the number of the others
  unfoldable pub pid_lines : Text → (ℤ → Text) → List ℤ → Text
  pid_lines title line pids =
      let sorted = sort_pids pids in
      if is_empty pids
      then []
      else texts (
          title
          ∷ texts (map line (take 15 sorted))
          ∷ more_text (bytes "  ") (length sorted) (length (take 15 sorted))
          ∷ [])

  unfoldable pub proc_details : (Time → Text) → Option ProcSnapshot → ProcSnapshot → Text
  proc_details rfc3339 prev curr = texts (
      bytes "ProcSnapshot(at="
      ∷ rfc3339 curr.at
      ∷ bytes ", total="
      ∷ decimal (length curr.running)
      ∷ prev_total (λ s. length s.running) prev curr
      ∷ bytes ", new="
      ∷ decimal (length curr.new_pids)
      ∷ bytes ", dead="
      ∷ decimal (length curr.dead_pids)
      ∷ bytes ")\n"
      ∷ pid_lines (bytes "New:\n")
          (λ pid. new_line rfc3339 (meta_or_zero (lookup pid curr.running))) curr.new_pids
      ∷ pid_lines (bytes "Dead:\n")
          (λ pid. dead_line pid (meta_or_zero (lookup pid (prev_procs prev)))) curr.dead_pids
      ∷ [])

  -- GetVerboseInfo, which gives no error
  unfoldable pub proc_verbose : {E : Type 0} → (Time → Text) → ProcCapturer E → Text
  proc_verbose rfc3339 c = elim c.curr [
    | none ↦ bytes "ProcSnapshot(verbose-empty)"
    | some s ↦ trim_suffix (proc_details rfc3339 c.prev s) (bytes "\n")
  ]

-- IsWarm
abbrev pub proc_is_warm : {E : Type 0} → ProcCapturer E → Bool
proc_is_warm c = is_some c.prev
