-- ===== src/Capturer/Persist.antt =====
-- PersistCapturer of capturer/persistent.go. `sort_strings` is sort.Strings, and `rfc3339` the layout of
-- Time.Format.
pub mod Loops
pub mod Exact
pub mod Verbose
use mini_edr.Prelude.Strings.{decimal}
use mini_edr.Prelude.World.{World, time_now}
use mini_edr.Prelude.Fallible.{Fallible, value, failure}
use mini_edr.Prelude.{
  ℕ, ◌+◌, pos, Text, text_eq, text_beq, bytes, List, [], ◌∷◌, ◌++◌, Option, none, some, GoMap,
  lookup, insert, keys_missing, length, is_empty, if◌then◌else◌, Float64,
}
use mini_edr.Capturer.Info.{Time, InfoData, zero_meta, summary_only, count_float}

-- The entries of a source: keys with their text
abbrev pub Entries : Type 0
Entries = GoMap Text Text

-- What Snapshot gives: the entries, `none` for a nil map, or an error.
pub record PersistSource (E : Type 0) : Type 0 where
  pub name : Text
  pub snapshot : World E → Fallible (Option Entries) × World E

pub record PersistSnapshot : Type 0 where
  pub at : Time
  pub sources : GoMap Text Entries
  pub added : GoMap Text (List Text)
  pub removed : GoMap Text (List Text)
  pub changed : GoMap Text (List Text)

pub record PersistCapturer (E : Type 0) : Type 0 where
  pub sources : List (Option (PersistSource E))
  pub prev : Option PersistSnapshot
  pub curr : Option PersistSnapshot

pub data PersistError : Type 0 where
  no_sources : PersistError
  source_failed : Text → Text → PersistError

-- `if m == nil { m = map[string]string{} }`
abbrev pub entries_of : Option Entries → Entries
entries_of none = []
entries_of (some m) = m

module _ {E : Type 0} where
  -- The loop of Capture over the sources; it ends at the first error.
  unfoldable pub read_sources :
      List (Option (PersistSource E))
      → GoMap Text Entries
      → World E
      → Option PersistError × GoMap Text Entries × World E
  read_sources [] found w = (none, found, w)
  read_sources (none ∷ sources) found w = read_sources sources found w
  read_sources (some src ∷ sources) found w =
      let (result, w') = src.snapshot w in
      elim result [
        | failure err ↦ (some (source_failed src.name err), found, w')
        | value m ↦ read_sources sources (insert src.name (entries_of m) found) w'
      ]

-- p.curr.Sources[name], and Added[name]; a nil map or slice for a missing name
unfoldable pub at_name {ℓ} : {A : Type ℓ} → Text → GoMap Text (List A) → List A
at_name name m = elim (lookup name m) [ none ↦ [] | some xs ↦ xs ]

-- The keys whose text has changed
unfoldable pub changed_keys : Entries → Entries → List Text
changed_keys before [] = []
changed_keys before (entry ∷ entries) =
    let rest = changed_keys before entries in
    elim (lookup entry.0 before) [
      | none ↦ rest
      | some old ↦ if text_beq old entry.1 then rest else entry.0 ∷ rest
    ]

-- Appending to an entry of the map makes the entry; a source without a key has none.
unfoldable pub put_keys : Text → List Text → GoMap Text (List Text) → GoMap Text (List Text)
put_keys name keys m = if is_empty keys then m else insert name keys m

module _ (sort_strings : List Text → List Text) where
  -- The differences of one source.
  unfoldable pub diff_source : Entries → Text → Entries → PersistSnapshot → PersistSnapshot
  diff_source before name now s = record s {
    added = put_keys name (sort_strings (keys_missing now before)) s.added;
    changed = put_keys name (sort_strings (changed_keys before now)) s.changed;
    removed = put_keys name (sort_strings (keys_missing before now)) s.removed;
  }

  -- "Diff per source"
  unfoldable pub diff_sources :
      GoMap Text Entries → GoMap Text Entries → PersistSnapshot → PersistSnapshot
  diff_sources before [] s = s
  diff_sources before (entry ∷ sources) s =
      diff_sources before sources (diff_source (at_name entry.0 before) entry.0 entry.1 s)

  abbrev pub bare_snapshot : Time → GoMap Text Entries → PersistSnapshot
  bare_snapshot at sources = record {
    at = at;
    sources = sources;
    added = [];
    removed = [];
    changed = [];
  }

  -- The snapshot with its differences to the last one.
  unfoldable pub persist_snapshot :
      Option PersistSnapshot → Time → GoMap Text Entries → PersistSnapshot
  persist_snapshot none at sources = bare_snapshot at sources
  persist_snapshot (some last) at sources =
      diff_sources last.sources sources (bare_snapshot at sources)

  -- Capture after the sources have been read.
  unfoldable pub take_persist :
      {E : Type 0}
      → PersistCapturer E
      → Time
      → Option PersistError × GoMap Text Entries × World E
      → Option PersistError × PersistCapturer E × World E
  take_persist c at (some err, sources, w) = (some err, c, w)
  take_persist c at (none, sources, w) =
      (none, record c { prev = c.curr; curr = some (persist_snapshot c.curr at sources) }, w)

  -- (*PersistCapturer).Capture
  unfoldable pub capture_persist :
      {E : Type 0} → PersistCapturer E → World E → Option PersistError × PersistCapturer E × World E
  capture_persist c w =
      let (at, w') = time_now w in
      let result = take_persist c at (read_sources c.sources [] w') in
      if is_empty c.sources then (some no_sources, c, w) else result

-- The loop that adds up the lengths
unfoldable pub count_keys : GoMap Text (List Text) → ℕ
count_keys [] = 0
count_keys (entry ∷ m) = length entry.1 + count_keys m

module _ {F : Type 0} ⦃fl : Float64 F⦄ where
  unfoldable pub persist_report : (Time → Text) → PersistSnapshot → InfoData F
  persist_report rfc3339 s = record {
    summary =
        bytes "PersistSnapshot(at="
        ++ rfc3339 s.at
        ++ bytes ", sources="
        ++ decimal (length s.sources)
        ++ bytes ", added="
        ++ decimal (count_keys s.added)
        ++ bytes ", changed="
        ++ decimal (count_keys s.changed)
        ++ bytes ", removed="
        ++ decimal (count_keys s.removed)
        ++ bytes ")";
    metrics = some (
        (bytes "persist.sources", count_float s.sources)
        ∷ (bytes "persist.added", fl.of_int (pos (count_keys s.added)))
        ∷ (bytes "persist.changed", fl.of_int (pos (count_keys s.changed)))
        ∷ (bytes "persist.removed", fl.of_int (pos (count_keys s.removed)))
        ∷ []);
    fields = none;
    meta = zero_meta;
  }

  -- (*PersistCapturer).GetInfo, which gives no error
  unfoldable pub persist_info : {E : Type 0} → (Time → Text) → PersistCapturer E → InfoData F
  persist_info rfc3339 c = elim c.curr [
    | none ↦ summary_only (bytes "PersistSnapshot(empty)")
    | some s ↦ persist_report rfc3339 s
  ]
