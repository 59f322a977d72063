-- ===== src/Capturer/Files/Changes.antt =====
-- The events of FileChangeCapturer of capturer/file.go, and its report. `sort_slice` is sort.Slice with its
-- comparison, and `rfc3339` the layout of Time.Format.
pub mod Exact
use mini_edr.Prelude.Strings.{text_ltb, decimal}
use mini_edr.Prelude.World.{World, time_now}
use mini_edr.Prelude.{
  ℤ, pos, pos_part, is_nonpos, int_eq, Text, text_eq, text_beq, bytes, Bool, not, ◌||◌, ◌&&◌, ◌==◌,
  nat_eq, List, [], ◌∷◌, ◌++◌, Option, none, some, GoMap, lookup, length, take, is_empty,
  if◌then◌else◌, Float64,
}
use mini_edr.Capturer.Info.{
  Time, FileMeta, FileEvent, Field, file_events, InfoData, zero_meta, summary_only, count_float,
}
use mini_edr.Capturer.Files.{
  file_created, file_modified, file_deleted, FileChangeSnapshot, FileChangeCapturer, FileError,
  no_walk_fn, no_paths, Scan, ext_allow, scan_roots, WalkResult,
}

-- `if cur.Size != prev.Size || !cur.ModTime.Equal(prev.ModTime) || cur.Mode != prev.Mode`
unfoldable pub is_modified : FileMeta → FileMeta → Bool
is_modified cur prev =
    not (cur.size == prev.size)
    || not (cur.mod_time == prev.mod_time)
    || not (cur.mode == prev.mode)

abbrev pub event : Time → Text → Text → FileMeta → FileEvent
event at type_of path m = record { at = at; type_of = type_of; path = path; file_meta = some m }

-- The loop for created and modified files.
unfoldable pub changed_events : Time → GoMap Text FileMeta → GoMap Text FileMeta → List FileEvent
changed_events at before [] = []
changed_events at before (entry ∷ files) =
    let rest = changed_events at before files in
    elim (lookup entry.0 before) [
      | none ↦ event at file_created entry.0 entry.1 ∷ rest
      | some prev ↦
          if is_modified entry.1 prev then event at file_modified entry.0 entry.1 ∷ rest else rest
    ]

-- The loop for deleted files.
unfoldable pub deleted_events : Time → GoMap Text FileMeta → GoMap Text FileMeta → List FileEvent
deleted_events at files [] = []
deleted_events at files (entry ∷ before) =
    let rest = deleted_events at files before in
    elim (lookup entry.0 files) [
      | none ↦ event at file_deleted entry.0 entry.1 ∷ rest
      | some cur ↦ rest
    ]

-- The comparison that Capture sorts by.
unfoldable pub event_less : FileEvent → FileEvent → Bool
event_less a b =
    if text_beq a.type_of b.type_of then text_ltb a.path b.path else text_ltb a.type_of b.type_of

-- Behind the last slash.
unfoldable pub last_element : Text → Text → Text
last_element [] found = found
last_element (b ∷ path) found =
    let at_slash = last_element path path in
    let later = last_element path found in if b == 47 then at_slash else later

unfoldable pub without_slashes : Text → Text
without_slashes [] = []
without_slashes (b ∷ path) =
    let rest = without_slashes path in if is_empty rest && b == 47 then [] else b ∷ rest

-- filepath.Base
unfoldable pub base : Text → Text
base path =
    let trimmed = without_slashes path in
    if is_empty path
    then bytes "."
    else if is_empty trimmed
    then bytes "/"
    else last_element trimmed trimmed

-- `if w.MaxFiles <= 0 { w.MaxFiles = 50_000 }`
abbrev pub or_default_limit : ℤ → ℤ
or_default_limit n = if is_nonpos n then pos 50000 else n

module _ {F : Type 0} ⦃fl : Float64 F⦄
    (sort_slice : (FileEvent → FileEvent → Bool) → List FileEvent → List FileEvent) where
  -- The snapshot with its differences to the last one.
  unfoldable pub file_snapshot :
      Option (FileChangeSnapshot F) → Time → GoMap Text FileMeta → FileChangeSnapshot F
  file_snapshot none at files = record { at = at; files = files; events = []; meta = zero_meta }
  file_snapshot (some last) at files = record {
    at = at;
    files = files;
    events =
        sort_slice event_less
          (changed_events at last.files files ++ deleted_events at files last.files);
    meta = zero_meta;
  }

  -- Capture after the scan.
  unfoldable pub take_files :
      {E : Type 0}
      → FileChangeCapturer F E
      → Time
      → Option FileError × Scan × World E
      → Option FileError × FileChangeCapturer F E × World E
  take_files c at (some err, s, w) = (some err, c, w)
  take_files c at (none, s, w) =
      (none, record c { prev = c.curr; curr = some (file_snapshot c.curr at s.found) }, w)

  unfoldable pub scan_files :
      {E : Type 0}
      → (Text → World E → WalkResult × World E)
      → FileChangeCapturer F E
      → World E
      → Option FileError × FileChangeCapturer F E × World E
  scan_files walk c w =
      let (at, w') = time_now w in
      let result =
        scan_roots c.lstat walk (ext_allow c.extensions) (pos_part c.max_files) c.paths
          (record { scanned = 0; found = [] }) w' in
      take_files c at result

  -- (*FileChangeCapturer).Capture
  unfoldable pub capture_files :
      {E : Type 0}
      → FileChangeCapturer F E
      → World E
      → Option FileError × FileChangeCapturer F E × World E
  capture_files c w = elim c.walk_fn [
    | none ↦ (some no_walk_fn, c, w)
    | some walk ↦
        if is_empty c.paths
        then (some no_paths, c, w)
        else scan_files walk (record c { max_files = or_default_limit c.max_files }) w
  ]

-- The sample of the summary: the first event, and how many there are behind it.
unfoldable pub event_sample : List FileEvent → Text
event_sample [] = []
event_sample (e ∷ []) = bytes ", sample=" ++ e.type_of ++ bytes ":" ++ base e.path
event_sample (e ∷ more) =
    bytes ", sample="
    ++ e.type_of
    ++ bytes ":"
    ++ base e.path
    ++ bytes "(+"
    ++ decimal (length more)
    ++ bytes ")"

unfoldable pub file_fields : List FileEvent → Option (GoMap Text Field)
file_fields events =
    if is_empty events
    then none
    else some ((bytes "file.events", file_events (take 200 events)) ∷ [])

module _ {F : Type 0} ⦃fl : Float64 F⦄ where
  unfoldable pub file_report : (Time → Text) → ℤ → FileChangeSnapshot F → InfoData F
  file_report rfc3339 max_files s = record {
    summary =
        bytes "FileChangeSnapshot(at="
        ++ rfc3339 s.at
        ++ bytes ", files="
        ++ decimal (length s.files)
        ++ bytes ", events="
        ++ decimal (length s.events)
        ++ event_sample s.events
        ++ bytes ")";
    metrics = some (
        (bytes "file.files", count_float s.files)
        ∷ (bytes "file.events", count_float s.events)
        ∷ (bytes "file.max_cap", fl.of_int max_files)
        ∷ []);
    fields = file_fields s.events;
    meta = record s.meta { max_files = max_files };
  }

  -- (*FileChangeCapturer).GetInfo, which gives no error
  unfoldable pub file_info : {E : Type 0} → (Time → Text) → FileChangeCapturer F E → InfoData F
  file_info rfc3339 c = elim c.curr [
    | none ↦ summary_only (bytes "FileChangeSnapshot(empty)")
    | some s ↦ file_report rfc3339 c.max_files s
  ]
