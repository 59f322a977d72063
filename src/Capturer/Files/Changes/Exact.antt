-- ===== src/Capturer/Files/Changes/Exact.antt =====
-- Which events FileChangeCapturer of capturer/file.go reports.
use mini_edr.Prelude.World.{World, time_now}
use mini_edr.Prelude.{
  ℕ, suc, int_eq, nat_eq, Text, text_eq, text_beq_iff, Bool, true, false, List, [], ◌∷◌, ◌++◌,
  Option, none, some, GoMap, Keyed, insert-Keyed, lookup, has, Among, Among-append, ◌≡◌, ◌≢◌, ◌↔◌,
  inl, inr, Option-cases, Bool-cases, subst, arith, Float64, pos_part, is_empty,
}
use mini_edr.Capturer.Info.{Time, FileMeta, FileEvent}
use mini_edr.Capturer.Files.{
  file_created, file_modified, file_deleted, FileChangeSnapshot, FileChangeCapturer, WalkEntry,
  RootInfo, WalkResult, Scan, FileError, add_file, walk_entries, add_root, root_file, walk_error,
  scan_roots, ext_allow,
}
use mini_edr.Capturer.Files.Changes.{
  is_modified, changed_events, deleted_events, event_less, file_snapshot, take_files, scan_files,
  capture_files, or_default_limit,
}

-- The type of an event, by what was there before and what is there now.
abbrev pub kind_of : Option FileMeta → Option FileMeta → Text
kind_of none now = file_created
kind_of (some m) none = file_deleted
kind_of (some m) (some n) = file_modified

-- The metadata of an event: what is there now, or else what was there before.
abbrev pub meta_of : Option FileMeta → Option FileMeta → Option FileMeta
meta_of before none = before
meta_of before (some n) = some n

-- The event tells of a path whose entry is not what it was.
abbrev pub IsChange : Time → GoMap Text FileMeta → GoMap Text FileMeta → FileEvent → Type 0
IsChange at before files e =
    (e.at ≡ at)
    × (lookup e.path before ≢ lookup e.path files)
    × (e.type_of ≡ kind_of (lookup e.path before) (lookup e.path files))
    × (e.file_meta ≡ meta_of (lookup e.path before) (lookup e.path files))

is_modified_iff : (m n : FileMeta) → (is_modified m n ≡ true) ↔ (n ≢ m)
unfolding is_modified
is_modified_iff m n = ground (arith, int_eq.same_iff m.size n.size)

changed_events_iff :
    (at : Time) (before files : GoMap Text FileMeta) (e : FileEvent)
    → Keyed files
    → Among e (changed_events at before files)
      ↔ (IsChange at before files e × (has e.path files ≡ true))
unfolding changed_events lookup
changed_events_iff at before [] e keyed = ground arith
changed_events_iff at before (entry ∷ files) e keyed =
    let rest = changed_events_iff at before files e keyed.1 in
    elim (Option-cases (lookup entry.0 before)) [
      | inl q ↦ ground (arith, q, rest, text_beq_iff entry.0 e.path)
      | inr (m, q) ↦ ground (arith, q, rest, text_beq_iff entry.0 e.path, is_modified_iff entry.1 m)
    ]

deleted_events_iff :
    (at : Time) (before files : GoMap Text FileMeta) (e : FileEvent)
    → Keyed before
    → Among e (deleted_events at files before)
      ↔ (IsChange at before files e × (has e.path files ≡ false))
unfolding deleted_events lookup
deleted_events_iff at [] files e keyed = ground arith
deleted_events_iff at (entry ∷ before) files e keyed =
    ground (arith, deleted_events_iff at before files e keyed.1, text_beq_iff entry.0 e.path)

add_file-Keyed :
    (allow : List Text) (e : WalkEntry) (found : GoMap Text FileMeta)
    → Keyed found
    → Keyed (add_file allow e found)
unfolding add_file
add_file-Keyed allow e found keyed = elim (Option-cases e.file_info) [
  | inl q ↦ ground (arith, q, keyed)
  | inr (m, q) ↦ ground (arith, q, keyed, insert-Keyed e.path m found keyed)
]

walk_entries-Keyed :
    (allow : List Text) (limit : ℕ) (entries : List WalkEntry) (s : Scan)
    → Keyed s.found
    → Keyed (walk_entries allow limit entries s).found
unfolding walk_entries
walk_entries-Keyed allow limit [] s keyed = keyed
walk_entries-Keyed allow limit (e ∷ entries) s keyed =
    let past = record s { scanned = suc s.scanned } in
    ground (
      arith,
      keyed,
      walk_entries-Keyed allow limit entries s keyed,
      walk_entries-Keyed allow limit entries (record past { found = add_file allow e s.found })
          (add_file-Keyed allow e s.found keyed),
    )

add_root-Keyed :
    (allow : List Text) (root : Text) (m : FileMeta) (s : Scan)
    → Keyed s.found
    → Keyed (add_root allow root m s).found
unfolding add_root
add_root-Keyed allow root m s keyed = ground (arith, keyed, insert-Keyed root m s.found keyed)

module _ {E : Type 0} (lstat : Text → World E → Option RootInfo × World E)
    (walk : Text → World E → WalkResult × World E) where
  -- No path is in the map twice, whatever the walks do.
  scan_roots-Keyed :
      (allow : List Text) (limit : ℕ) (roots : List Text) (s : Scan) (w : World E)
      → Keyed s.found
      → Keyed (scan_roots lstat walk allow limit roots s w).1.found
  unfolding scan_roots
  scan_roots-Keyed allow limit [] s w keyed = keyed
  scan_roots-Keyed allow limit (root ∷ roots) s w keyed =
      let (info, w₁) = lstat root w in
      let (result, w₂) = walk root w₁ in
      let s' = walk_entries allow limit result.entries s in
      let walked = walk_entries-Keyed allow limit result.entries s keyed in
      elim (Option-cases (root_file info)) [
        | inr (m, q) ↦ ground (
          arith,
          q,
          scan_roots-Keyed allow limit roots (add_root allow root m s) w₁
              (add_root-Keyed allow root m s keyed),
        )
        | inl q ↦ elim (Option-cases (walk_error limit result s)) [
          | inr (err, r) ↦ ground (arith, q, r, walked)
          | inl r ↦ ground (arith, q, r, scan_roots-Keyed allow limit roots s' w₂ walked)
        ]
      ]

module _ {F : Type 0} ⦃fl : Float64 F⦄
    (sort_slice : (FileEvent → FileEvent → Bool) → List FileEvent → List FileEvent) where
  -- The snapshot that a scan gives has no path twice, and has the events of all changes to the last
  -- one.
  abbrev IsExact : FileChangeSnapshot F → FileChangeSnapshot F → FileEvent → Type 0
  IsExact last s e = Keyed s.files × (Among e s.events ↔ IsChange s.at last.files s.files e)

  file_snapshot-IsExact :
      (last : FileChangeSnapshot F) (at : Time) (files : GoMap Text FileMeta) (e : FileEvent)
      → ((xs : List FileEvent) → Among e (sort_slice event_less xs) ↔ Among e xs)
      → Keyed last.files
      → Keyed files
      → IsExact last (file_snapshot sort_slice (some last) at files) e
  unfolding file_snapshot
  file_snapshot-IsExact last at files e sorts old keyed =
      let changed = changed_events at last.files files in
      let deleted = deleted_events at files last.files in
      (
        keyed,
        ground (
          arith,
          sorts (changed ++ deleted),
          Among-append e changed deleted,
          changed_events_iff at last.files files e keyed,
          deleted_events_iff at last.files files e old,
        ),
      )

  take_files-IsExact :
      {E : Type 0} (c : FileChangeCapturer F E) (at : Time) (err : Option FileError) (found : Scan)
      (w : World E) (last s : FileChangeSnapshot F) (e : FileEvent)
      → ((xs : List FileEvent) → Among e (sort_slice event_less xs) ↔ Among e xs)
      → c.curr ≡ some last
      → Keyed last.files
      → Keyed found.found
      → (take_files sort_slice c at (err, found, w)).0 ≡ none
      → (take_files sort_slice c at (err, found, w)).1.curr ≡ some s
      → IsExact last s e
  unfolding take_files
  take_files-IsExact c at (some err) found w last s e sorts had old keyed done now =
      ground (arith, done)
  take_files-IsExact c at none found w last s e sorts had old keyed done now =
      let snap : file_snapshot sort_slice (some last) at found.found ≡ s =
        ground (arith, had, now) in
      subst (λ x. IsExact last x e) snap
        (file_snapshot-IsExact last at found.found e sorts old keyed)

  -- A capture that succeeds after another reports exactly the changes: an event is among those of the new
  -- snapshot if and only if its path has another entry than in the last snapshot, and the event has
  -- the time of the snapshot, says `created`, `deleted` or `modified` as the entry was missing, is
  -- missing or is another, and carries the new metadata, or the old of a deleted file. No path is
  -- twice in the new snapshot, as long as none was in the last; sort.Slice must keep the elements.
  pub capture_files-IsExact :
      {E : Type 0} (c : FileChangeCapturer F E) (w : World E) (last s : FileChangeSnapshot F)
      (e : FileEvent)
      → ((xs : List FileEvent) → Among e (sort_slice event_less xs) ↔ Among e xs)
      → c.curr ≡ some last
      → Keyed last.files
      → (capture_files sort_slice c w).0 ≡ none
      → (capture_files sort_slice c w).1.curr ≡ some s
      → Keyed s.files × (Among e s.events ↔ IsChange s.at last.files s.files e)
  unfolding capture_files scan_files time_now
  capture_files-IsExact c w last s e sorts had old done now = elim (Option-cases c.walk_fn) [
    | inl q ↦ ground (arith, q, done)
    | inr (walk, q) ↦
        let allow = ext_allow c.extensions in
        let limit = pos_part (or_default_limit c.max_files) in
        let ready = record c { max_files = or_default_limit c.max_files } in
        let w' = record w { reads = suc w.reads } in
        let nothing : Scan = record { scanned = 0; found = [] } in
        let keyed = scan_roots-Keyed c.lstat walk allow limit c.paths nothing w' tt in
        elim (Bool-cases (is_empty c.paths)) [
          | inl none_given ↦ ground (arith, q, none_given, done)
          | inr given ↦
              let scanned = scan_roots c.lstat walk allow limit c.paths nothing w' in
              take_files-IsExact ready (w.clock w.reads) scanned.0 scanned.1 scanned.2 last s e
                sorts had old keyed (ground (arith, q, given, done)) (ground (arith, q, given, now))
        ]
  ]
