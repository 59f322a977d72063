-- ===== src/Capturer/Files/Verbose.antt =====
-- GetVerboseInfo of FileChangeCapturer, capturer/file.go. `rfc3339` is the layout of Time.Format, and
-- `mode_text` prints a file mode.
use mini_edr.Prelude.Strings.{decimal, decimal_ℤ, signed, texts, trim_suffix}
use mini_edr.Prelude.{
  ℕ, pos, ◌-ℤ◌, Text, text_beq, bytes, List, [], ◌∷◌, map, join, keep, take, length, is_empty,
  is_some, Bool, Option, none, some, if◌then◌else◌,
}
use mini_edr.Capturer.Info.{Time, FileMeta, FileEvent}
use mini_edr.Capturer.Since.{prev_count, more_text}
use mini_edr.Capturer.Files.{
  FileChangeSnapshot, FileChangeCapturer, file_created, file_modified, file_deleted,
}

-- typeCnt[t]
unfoldable pub type_count : Text → List FileEvent → ℕ
type_count t events = length (keep (λ e. text_beq e.type_of t) events)

-- `title: a, b`, if there is anything to list
unfoldable pub listed : Text → List Text → Text
listed title names =
    if is_empty names then [] else texts (title ∷ join (bytes ", ") names ∷ bytes "\n" ∷ [])

unfoldable pub type_counts : List FileEvent → Text
type_counts events =
    if is_empty events
    then []
    else texts (
        bytes "EventTypes: created="
        ∷ decimal (type_count file_created events)
        ∷ bytes " modified="
        ∷ decimal (type_count file_modified events)
        ∷ bytes " deleted="
        ∷ decimal (type_count file_deleted events)
        ∷ bytes "\n"
        ∷ [])

module _ (rfc3339 : Time → Text) (mode_text : ℕ → Text) where
  unfoldable pub meta_text : Option FileMeta → Text
  meta_text none = []
  meta_text (some m) = texts (
      bytes " size="
      ∷ decimal_ℤ m.size
      ∷ bytes " mode="
      ∷ mode_text m.mode
      ∷ bytes " mtime="
      ∷ rfc3339 m.mod_time
      ∷ [])

  unfoldable pub event_line : FileEvent → Text
  event_line e =
      texts (bytes "- " ∷ e.type_of ∷ bytes " " ∷ e.path ∷ meta_text e.file_meta ∷ bytes "\n" ∷ [])

  -- The first twenty events, with the number of the others
  unfoldable pub event_lines : List FileEvent → Text
  event_lines events =
      if is_empty events
      then []
      else texts (
          bytes "Events:\n"
          ∷ texts (map event_line (take 20 events))
          ∷ more_text (bytes "  ") (length events) (length (take 20 events))
          ∷ [])

module _ {F : Type 0} where
  -- `, prevFiles=%d, deltaFiles=%+d`
  unfoldable pub prev_files : Option (FileChangeSnapshot F) → FileChangeSnapshot F → Text
  prev_files none curr = []
  prev_files (some prev) curr = texts (
      bytes ", prevFiles="
      ∷ decimal (length prev.files)
      ∷ bytes ", deltaFiles="
      ∷ signed (pos (length curr.files) -ℤ pos (length prev.files))
      ∷ [])

  unfoldable pub file_details :
      {E : Type 0}
      → (Time → Text)
      → (ℕ → Text)
      → FileChangeCapturer F E
      → FileChangeSnapshot F
      → Text
  file_details rfc3339 mode_text c curr = texts (
      bytes "FileChangeSnapshot(at="
      ∷ rfc3339 curr.at
      ∷ bytes ", paths="
      ∷ decimal (length c.paths)
      ∷ bytes ", files="
      ∷ decimal (length curr.files)
      ∷ prev_files c.prev curr
      ∷ bytes ", events="
      ∷ decimal (length curr.events)
      ∷ prev_count (λ s. length s.events) c.prev curr
      ∷ bytes ", maxFiles="
      ∷ decimal_ℤ c.max_files
      ∷ bytes ")\n"
      ∷ listed (bytes "Roots: ") c.paths
      ∷ listed (bytes "Extensions: ") c.extensions
      ∷ type_counts curr.events
      ∷ event_lines rfc3339 mode_text curr.events
      ∷ [])

  -- GetVerboseInfo, which gives no error
  unfoldable pub file_verbose :
      {E : Type 0} → (Time → Text) → (ℕ → Text) → FileChangeCapturer F E → Text
  file_verbose rfc3339 mode_text c = elim c.curr [
    | none ↦ bytes "FileChangeSnapshot(verbose-empty)"
    | some s ↦ trim_suffix (file_details rfc3339 mode_text c s) (bytes "\n")
  ]

-- IsWarm
abbrev pub file_is_warm : {F E : Type 0} → FileChangeCapturer F E → Bool
file_is_warm c = is_some c.prev
