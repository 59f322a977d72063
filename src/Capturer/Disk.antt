-- ===== src/Capturer/Disk.antt =====
-- DISKCapturer of capturer/disk.go. The usage of a path and the counters of the devices come from
-- gopsutil. `rfc3339` is the layout of Time.Format.
pub mod Verbose
use mini_edr.Prelude.Strings.{decimal, decimal_ℤ, texts}
use mini_edr.Prelude.World.{World, time_now}
use mini_edr.Prelude.Fallible.{Fallible, value, failure}
use mini_edr.Prelude.{
  ℕ, pos, Text, text_eq, bytes, ltb, Bool, List, [], ◌∷◌, ◌++◌, Option, none, some, is_some, GoMap,
  lookup, insert, length, is_empty, if◌then◌else◌, Float64,
}
use mini_edr.Capturer.Info.{Time, InfoData, zero_meta, summary_only}
use mini_edr.Capturer.Rates.{sum_rises, elapsed}

-- disk.UsageStat and disk.IOCountersStat, with the fields that the capturer reads
pub record DiskUsage (F : Type 0) : Type 0 where
  pub fstype : Text
  pub total : ℕ
  pub used : ℕ
  pub used_percent : F
  pub inodes_total : ℕ
  pub inodes_used : ℕ
  pub inodes_used_percent : F

pub record DiskCounters : Type 0 where
  pub read_count : ℕ
  pub write_count : ℕ
  pub read_bytes : ℕ
  pub write_bytes : ℕ

-- A usage is a pointer; `none` is a nil one.
pub record DiskSnapshot (F : Type 0) : Type 0 where
  pub at : Time
  pub usage : GoMap Text (Option (DiskUsage F))
  pub io : GoMap Text DiskCounters

-- UsageFn and IOCountersFn: a value or an error, and the world after the call; `none` is a nil
-- function.
pub record DiskCapturer (F E : Type 0) : Type 0 where
  pub paths : List Text
  pub usage_fn : Option (Text → World E → Fallible (Option (DiskUsage F)) × World E)
  pub io_counters_fn : Option (World E → Fallible (GoMap Text DiskCounters) × World E)
  pub prev : Option (DiskSnapshot F)
  pub curr : Option (DiskSnapshot F)

pub data DiskError : Type 0 where
  no_usage_fn : DiskError
  no_io_counters_fn : DiskError
  usage_failed : Text → Text → DiskError
  io_counters_failed : Text → DiskError

-- `if len(paths) == 0 { paths = []string{"/"} }`
unfoldable pub paths_or_root : List Text → List Text
paths_or_root paths = if is_empty paths then bytes "/" ∷ [] else paths

-- The outcome of the loop over the paths: the map, or the path that failed and its error.
pub data Usages (F : Type 0) : Type 0 where
  read : GoMap Text (Option (DiskUsage F)) → Usages F
  unread : Text → Text → Usages F

module _ {F E : Type 0} where
  unfoldable pub read_usages :
      (Text → World E → Fallible (Option (DiskUsage F)) × World E)
      → List Text
      → GoMap Text (Option (DiskUsage F))
      → World E
      → Usages F × World E
  read_usages f [] usage w = (read usage, w)
  read_usages f (p ∷ paths) usage w =
      let (u, w') = f p w in
      elim u [
        | failure err ↦ (unread p err, w')
        | value stat ↦ read_usages f paths (insert p stat usage) w'
      ]

  -- Capture after the two functions have returned.
  unfoldable pub take_disk :
      DiskCapturer F E
      → GoMap Text (Option (DiskUsage F))
      → Fallible (GoMap Text DiskCounters)
      → World E
      → Option DiskError × DiskCapturer F E × World E
  take_disk c usage (failure err) w = (some (io_counters_failed err), c, w)
  take_disk c usage (value io) w =
      let (at, w') = time_now w in
      (
        none,
        record c { prev = c.curr; curr = some (record { at = at; usage = usage; io = io }) },
        w',
      )

  unfoldable pub with_usages :
      DiskCapturer F E
      → (World E → Fallible (GoMap Text DiskCounters) × World E)
      → Usages F
      → World E
      → Option DiskError × DiskCapturer F E × World E
  with_usages c io_fn (unread p err) w = (some (usage_failed p err), c, w)
  with_usages c io_fn (read usage) w = let (io, w') = io_fn w in take_disk c usage io w'

  -- (*DISKCapturer).Capture
  unfoldable pub capture_disk :
      DiskCapturer F E → World E → Option DiskError × DiskCapturer F E × World E
  capture_disk c w = elim c.usage_fn [
    | none ↦ (some no_usage_fn, c, w)
    | some f ↦ elim c.io_counters_fn [
      | none ↦ (some no_io_counters_fn, c, w)
      | some g ↦ let (usages, w') = read_usages f c.paths [] w in with_usages c g usages w'
    ]
  ]

  -- IsWarm
  abbrev pub disk_is_warm : DiskCapturer F E → Bool
  disk_is_warm c = is_some c.prev

-- The bytes read and written since the last snapshot
unfoldable pub disk_rises : {F : Type 0} → DiskSnapshot F → DiskSnapshot F → ℕ × ℕ
disk_rises prev curr = sum_rises (λ c. c.read_bytes) (λ c. c.write_bytes) prev.io curr.io (0, 0)

module _ {F : Type 0} ⦃fl : Float64 F⦄ where
  -- The usage of the first path, if it is known and not empty.
  unfoldable pub first_usage : List Text → DiskSnapshot F → Option (Text × DiskUsage F)
  first_usage [] s = none
  first_usage (p ∷ paths) s = elim (lookup p s.usage) [
    | some (some u) ↦ if ltb 0 u.total then some (p, u) else none
    | _ ↦ none
  ]

  unfoldable pub usage_summary : Option (Text × DiskUsage F) → Text
  usage_summary none = bytes "n/a"
  usage_summary (some (p, u)) = texts (
      p
      ∷ bytes " used="
      ∷ fl.fixed 2 u.used_percent
      ∷ bytes "% ("
      ∷ decimal u.used
      ∷ bytes "/"
      ∷ decimal u.total
      ∷ bytes "B)"
      ∷ [])

  unfoldable pub usage_metrics : Option (Text × DiskUsage F) → GoMap Text F
  usage_metrics none = []
  usage_metrics (some (p, u)) =
      (bytes "disk.used_pct", u.used_percent)
      ∷ (bytes "disk.total_bytes", fl.of_int (pos u.total))
      ∷ (bytes "disk.used_bytes", fl.of_int (pos u.used))
      ∷ []

  unfoldable pub disk_rates : Option (DiskSnapshot F) → DiskSnapshot F → Option (F × F)
  disk_rates none curr = none
  disk_rates (some prev) curr =
      let sec = elapsed prev.at curr.at in
      let (r, w) = disk_rises prev curr in
      if fl.lt (fl.of_int (pos 0)) sec
      then some (fl.div (fl.of_int (pos r)) sec, fl.div (fl.of_int (pos w)) sec)
      else none

  unfoldable pub io_summary : Option (F × F) → Text
  io_summary none = bytes "ioRate=n/a"
  io_summary (some (r, w)) = texts (
      bytes "ioRate=read "
      ∷ decimal_ℤ (fl.trunc r)
      ∷ bytes "B/s write "
      ∷ decimal_ℤ (fl.trunc w)
      ∷ bytes "B/s"
      ∷ [])

  unfoldable pub io_metrics : Option (F × F) → GoMap Text F
  io_metrics none = []
  io_metrics (some (r, w)) =
      (bytes "disk.read_bytes_per_sec", r) ∷ (bytes "disk.write_bytes_per_sec", w) ∷ []

  -- `if len(metrics) == 0 { metrics = nil }`
  abbrev pub nil_if_empty : GoMap Text F → Option (GoMap Text F)
  nil_if_empty metrics = if is_empty metrics then none else some metrics

  unfoldable pub disk_report :
      (Time → Text) → List Text → Option (DiskSnapshot F) → DiskSnapshot F → InfoData F
  disk_report rfc3339 paths prev curr = record {
    summary = texts (
        bytes "DISKSnapshot(at="
        ∷ rfc3339 curr.at
        ∷ bytes ", "
        ∷ usage_summary (first_usage paths curr)
        ∷ bytes ", "
        ∷ io_summary (disk_rates prev curr)
        ∷ bytes ", devices="
        ∷ decimal (length curr.io)
        ∷ bytes ")"
        ∷ []);
    metrics =
        nil_if_empty (usage_metrics (first_usage paths curr) ++ io_metrics (disk_rates prev curr));
    fields = none;
    meta = zero_meta;
  }

  -- (*DISKCapturer).GetInfo, which gives no error
  unfoldable pub disk_info : {E : Type 0} → (Time → Text) → DiskCapturer F E → InfoData F
  disk_info rfc3339 c = elim c.curr [
    | none ↦ summary_only (bytes "DISKSnapshot(empty)")
    | some s ↦ disk_report rfc3339 c.paths c.prev s
  ]
