-- ===== src/Capturer/Files.antt =====
-- The state of FileChangeCapturer of capturer/file.go, and the scan of its Capture. Paths are separated
-- by slashes.
pub mod Changes
pub mod Verbose
use mini_edr.Prelude.Strings.{trim_space, to_lower, has_prefix}
use mini_edr.Prelude.World.{World}
use mini_edr.Prelude.{
  ℕ, suc, ℤ, int_eq, Text, text_eq, text_beq, bytes, Bool, true, false, ◌||◌, ltb, ◌==◌, nat_eq,
  List, [], ◌∷◌, ◌++◌, Option, none, some, GoMap, insert, is_empty, if◌then◌else◌,
}
use mini_edr.Capturer.Info.{Time, FileMeta, FileEvent, TelemetryMeta}

abbrev pub file_created : Text
file_created = bytes "created"

abbrev pub file_modified : Text
file_modified = bytes "modified"

abbrev pub file_deleted : Text
file_deleted = bytes "deleted"

pub record FileChangeSnapshot (F : Type 0) : Type 0 where
  pub at : Time
  pub files : GoMap Text FileMeta
  pub events : List FileEvent
  pub meta : TelemetryMeta F

-- What WalkFn calls its function with: a path with an error, or with an entry, whose Info() may fail.
pub record WalkEntry : Type 0 where
  pub path : Text
  pub is_failed : Bool
  pub is_dir : Bool
  pub file_info : Option FileMeta

-- What os.Lstat gives without an error.
pub record RootInfo : Type 0 where
  pub is_dir : Bool
  pub file_meta : FileMeta

-- What WalkFn does below a root: the calls that it makes as long as they return nil, and the error that
-- it returns after them.
pub record WalkResult : Type 0 where
  pub entries : List WalkEntry
  pub err : Option Text

-- `lstat` is os.Lstat, `none` on an error; `none` for `walk_fn` is nil.
pub record FileChangeCapturer (F E : Type 0) : Type 0 where
  pub paths : List Text
  pub extensions : List Text
  pub max_files : ℤ
  pub lstat : Text → World E → Option RootInfo × World E
  pub walk_fn : Option (Text → World E → WalkResult × World E)
  pub prev : Option (FileChangeSnapshot F)
  pub curr : Option (FileChangeSnapshot F)

pub data FileError : Type 0 where
  no_walk_fn : FileError
  no_paths : FileError
  walk_failed : Text → Text → FileError

-- filepath.Ext, with what stands behind the place at hand so far
unfoldable pub ext_loop : Text → Text → Text
ext_loop [] found = found
ext_loop (b ∷ path) found =
    let at_dot = ext_loop path (b ∷ path) in
    let at_slash = ext_loop path [] in
    let later = ext_loop path found in
    if b == 46 then at_dot else if b == 47 then at_slash else later

-- filepath.Ext: from the last dot behind the last slash on
abbrev pub ext : Text → Text
ext path = ext_loop path []

-- An extension as the set of them holds it.
unfoldable pub clean_extension : Text → Text
clean_extension e =
    let e' = to_lower (trim_space e) in
    if is_empty e' || has_prefix e' (bytes ".") then e' else bytes "." ++ e'

-- The set of extensions, as a list
unfoldable pub ext_allow : List Text → List Text
ext_allow [] = []
ext_allow (e ∷ es) =
    let rest = ext_allow es in let e' = clean_extension e in if is_empty e' then rest else e' ∷ rest

unfoldable pub is_listed : Text → List Text → Bool
is_listed t [] = false
is_listed t (u ∷ us) = text_beq u t || is_listed t us

-- The function `accept` of Capture
unfoldable pub accept : List Text → Text → Bool
accept allow path = is_empty allow || is_listed (to_lower (ext path)) allow

-- The files found so far, with the number scanned.
pub record Scan : Type 0 where
  pub scanned : ℕ
  pub found : GoMap Text FileMeta

-- What the function given to WalkFn adds for a file that counts.
unfoldable pub add_file : List Text → WalkEntry → GoMap Text FileMeta → GoMap Text FileMeta
add_file allow e found = elim e.file_info [
  | none ↦ found
  | some m ↦ if accept allow e.path then insert e.path m found else found
]

-- The calls of one WalkFn: fs.SkipAll, which the code returns above the limit, ends them.
unfoldable pub walk_entries : List Text → ℕ → List WalkEntry → Scan → Scan
walk_entries allow limit [] s = s
walk_entries allow limit (e ∷ entries) s =
    let past = record s { scanned = suc s.scanned } in
    let skipped = walk_entries allow limit entries s in
    let visited =
      walk_entries allow limit entries (record past { found = add_file allow e s.found }) in
    if e.is_failed || e.is_dir then skipped else if ltb limit (suc s.scanned) then past else visited

-- Whether the calls of one WalkFn end with fs.SkipAll.
unfoldable pub is_skipped : ℕ → List WalkEntry → ℕ → Bool
is_skipped limit [] scanned = false
is_skipped limit (e ∷ entries) scanned =
    let here = is_skipped limit entries scanned in
    let visited = is_skipped limit entries (suc scanned) in
    if e.is_failed || e.is_dir then here else if ltb limit (suc scanned) then true else visited

-- The error of WalkFn that counts: fs.SkipAll does not.
unfoldable pub walk_error : ℕ → WalkResult → Scan → Option Text
walk_error limit result s = if is_skipped limit result.entries s.scanned then none else result.err

-- A root that is a file
unfoldable pub add_root : List Text → Text → FileMeta → Scan → Scan
add_root allow root m s =
    if accept allow root then record s { found = insert root m s.found } else s

-- The metadata of a root that is a file.
unfoldable pub root_file : Option RootInfo → Option FileMeta
root_file none = none
root_file (some r) = if r.is_dir then none else some r.file_meta

module _ {E : Type 0} where
  -- The loop of Capture over the roots; it ends at the first walk that fails.
  unfoldable pub scan_roots :
      (Text → World E → Option RootInfo × World E)
      → (Text → World E → WalkResult × World E)
      → List Text
      → ℕ
      → List Text
      → Scan
      → World E
      → Option FileError × Scan × World E
  scan_roots lstat walk allow limit [] s w = (none, s, w)
  scan_roots lstat walk allow limit (root ∷ roots) s w =
      let (info, w₁) = lstat root w in
      let (result, w₂) = walk root w₁ in
      let s' = walk_entries allow limit result.entries s in
      elim (root_file info) [
        | some m ↦ scan_roots lstat walk allow limit roots (add_root allow root m s) w₁
        | none ↦ elim (walk_error limit result s) [
          | some err ↦ (some (walk_failed root err), s', w₂)
          | none ↦ scan_roots lstat walk allow limit roots s' w₂
        ]
      ]
