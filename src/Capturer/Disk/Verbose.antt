-- ===== src/Capturer/Disk/Verbose.antt =====
-- GetVerboseInfo of DISKCapturer, capturer/disk.go. `sort_strings` is sort.Strings, and
-- `interval_text` prints a duration rounded to milliseconds.
use mini_edr.Prelude.Strings.{decimal, texts, trim_suffix}
use mini_edr.Prelude.{
  ℕ, ℤ, pos, Text, text_eq, bytes, ltb, List, [], ◌∷◌, ◌++◌, Option, none, some, GoMap, lookup,
  keys, length, map, is_empty, if◌then◌else◌, Float64,
}
use mini_edr.Capturer.Info.{Time}
use mini_edr.Capturer.Since.{prev_count, interval_part}
use mini_edr.Capturer.Rates.{delta_uint64, elapsed}
use mini_edr.Capturer.Disk.{DiskUsage, DiskCounters, DiskSnapshot, DiskCapturer}

-- The counters as they are, behind a remark.
unfoldable pub plain_counters : Text → Text → DiskCounters → Text
plain_counters name remark cur = texts (
    bytes "- "
    ∷ name
    ∷ remark
    ∷ bytes " readBytes="
    ∷ decimal cur.read_bytes
    ∷ bytes " writeBytes="
    ∷ decimal cur.write_bytes
    ∷ bytes " readIO="
    ∷ decimal cur.read_count
    ∷ bytes " writeIO="
    ∷ decimal cur.write_count
    ∷ bytes "\n"
    ∷ [])

unfoldable pub or_empty_text : Text → Text
or_empty_text out = if is_empty out then bytes "DISKSnapshot(verbose-empty)" else out

module _ {F : Type 0} ⦃fl : Float64 F⦄ where
  unfoldable pub inode_part : DiskUsage F → Text
  inode_part u =
      if ltb 0 u.inodes_total
      then texts (
          bytes " inodes="
          ∷ fl.fixed 2 u.inodes_used_percent
          ∷ bytes "% ("
          ∷ decimal u.inodes_used
          ∷ bytes "/"
          ∷ decimal u.inodes_total
          ∷ bytes ")"
          ∷ [])
      else []

  unfoldable pub usage_line : GoMap Text (Option (DiskUsage F)) → Text → Text
  usage_line usage p = elim (lookup p usage) [
    | some (some u) ↦ texts (
        bytes "- "
        ∷ p
        ∷ bytes " fstype="
        ∷ u.fstype
        ∷ bytes " used="
        ∷ fl.fixed 2 u.used_percent
        ∷ bytes "% ("
        ∷ decimal u.used
        ∷ bytes "/"
        ∷ decimal u.total
        ∷ bytes ")"
        ∷ inode_part u
        ∷ bytes "\n"
        ∷ [])
    | _ ↦ []
  ]

  unfoldable pub usage_lines : (List Text → List Text) → GoMap Text (Option (DiskUsage F)) → Text
  usage_lines sort_strings usage =
      if is_empty usage
      then []
      else bytes "Usage:\n" ++ texts (map (usage_line usage) (sort_strings (keys usage)))

  -- The rate of a counter, with so many digits.
  abbrev pub counter_rate : ℕ → F → ℕ → ℕ → Text
  counter_rate digits sec prev cur =
      fl.fixed digits (fl.div (fl.of_int (pos (delta_uint64 prev cur))) sec)

  unfoldable pub io_rates : F → Text → DiskCounters → DiskCounters → Text
  io_rates sec name prev cur = texts (
      bytes "- "
      ∷ name
      ∷ bytes " read="
      ∷ counter_rate 0 sec prev.read_bytes cur.read_bytes
      ∷ bytes "B/s write="
      ∷ counter_rate 0 sec prev.write_bytes cur.write_bytes
      ∷ bytes "B/s readIO="
      ∷ counter_rate 1 sec prev.read_count cur.read_count
      ∷ bytes "/s writeIO="
      ∷ counter_rate 1 sec prev.write_count cur.write_count
      ∷ bytes "/s\n"
      ∷ [])

  -- A device that the last snapshot has, or has not.
  unfoldable pub io_since : F → Text → Option DiskCounters → DiskCounters → Text
  io_since sec name none cur = plain_counters name (bytes " (no-prev)") cur
  io_since sec name (some prev) cur = io_rates sec name prev cur

  unfoldable pub io_line : Option (DiskSnapshot F) → Time → Text → DiskCounters → Text
  io_line none now name cur = plain_counters name [] cur
  io_line (some prev) now name cur =
      let sec = elapsed prev.at now in
      if fl.le sec (fl.of_int (pos 0))
      then plain_counters name [] cur
      else io_since sec name (lookup name prev.io) cur

  unfoldable pub device_line : Option (DiskSnapshot F) → DiskSnapshot F → Text → Text
  device_line prev curr name = elim (lookup name curr.io) [
    | none ↦ []
    | some cur ↦ io_line prev curr.at name cur
  ]

  unfoldable pub io_lines :
      (List Text → List Text) → Option (DiskSnapshot F) → DiskSnapshot F → Text
  io_lines sort_strings prev curr =
      if is_empty curr.io
      then []
      else bytes "IO:\n" ++ texts (map (device_line prev curr) (sort_strings (keys curr.io)))

  unfoldable pub disk_details :
      (Time → Text)
      → (ℤ → Text)
      → (List Text → List Text)
      → Option (DiskSnapshot F)
      → DiskSnapshot F
      → Text
  disk_details rfc3339 interval_text sort_strings prev curr = texts (
      bytes "DISKSnapshot(at="
      ∷ rfc3339 curr.at
      ∷ interval_part interval_text (λ s. s.at) prev curr
      ∷ bytes ")\nSummary: paths="
      ∷ decimal (length curr.usage)
      ∷ prev_count (λ s. length s.usage) prev curr
      ∷ bytes " devices="
      ∷ decimal (length curr.io)
      ∷ prev_count (λ s. length s.io) prev curr
      ∷ bytes "\n"
      ∷ usage_lines sort_strings curr.usage
      ∷ io_lines sort_strings prev curr
      ∷ [])

  -- GetVerboseInfo, which gives no error
  unfoldable pub disk_verbose :
      {E : Type 0} → (Time → Text) → (ℤ → Text) → (List Text → List Text) → DiskCapturer F E → Text
  disk_verbose rfc3339 interval_text sort_strings c = elim c.curr [
    | none ↦ bytes "DISKSnapshot(verbose-empty)"
    | some s ↦
        or_empty_text
          (trim_suffix (disk_details rfc3339 interval_text sort_strings c.prev s) (bytes "\n"))
  ]
