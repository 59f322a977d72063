-- ===== src/Capturer/Persist/Verbose.antt =====
-- GetVerboseInfo of PersistCapturer, capturer/persistent.go. `rfc3339` is the layout of Time.Format,
-- and `sort_strings` is sort.Strings.
use mini_edr.Prelude.Strings.{decimal, texts, trim_suffix}
use mini_edr.Prelude.{
  ℕ, Text, text_eq, bytes, List, [], ◌∷◌, map, join, take, length, is_empty, is_some, Bool, Option,
  none, some, GoMap, lookup, keys, if◌then◌else◌,
}
use mini_edr.Capturer.Info.{Time}
use mini_edr.Capturer.Since.{prev_total, prev_count, more_text}
use mini_edr.Capturer.Persist.{PersistSnapshot, PersistCapturer}

-- m[name], which is nil for a source that is missing
unfoldable pub keys_of : Text → GoMap Text (List Text) → List Text
keys_of name m = elim (lookup name m) [ none ↦ [] | some ks ↦ ks ]

-- len(s.Sources[name])
unfoldable pub entry_count : Text → PersistSnapshot → ℕ
entry_count name s = elim (lookup name s.sources) [ none ↦ 0 | some entries ↦ length entries ]

-- printKeys
unfoldable pub print_keys : Text → List Text → Text
print_keys label ks =
    if is_empty ks
    then []
    else texts (
        bytes "  "
        ∷ label
        ∷ bytes ": "
        ∷ join (bytes ", ") (take 10 ks)
        ∷ bytes "\n"
        ∷ more_text (bytes "    ") (length ks) (length (take 10 ks))
        ∷ [])

unfoldable pub source_lines : Option PersistSnapshot → PersistSnapshot → Text → Text
source_lines prev curr name =
    let added = keys_of name curr.added in
    let changed = keys_of name curr.changed in
    let removed = keys_of name curr.removed in
    texts (
      bytes "- "
      ∷ name
      ∷ bytes " entries="
      ∷ decimal (entry_count name curr)
      ∷ prev_count (entry_count name) prev curr
      ∷ bytes " added="
      ∷ decimal (length added)
      ∷ bytes " changed="
      ∷ decimal (length changed)
      ∷ bytes " removed="
      ∷ decimal (length removed)
      ∷ bytes "\n"
      ∷ print_keys (bytes "added") added
      ∷ print_keys (bytes "changed") changed
      ∷ print_keys (bytes "removed") removed
      ∷ [])

module _ (rfc3339 : Time → Text) (sort_strings : List Text → List Text) where
  unfoldable pub persist_details : Option PersistSnapshot → PersistSnapshot → Text
  persist_details prev curr = texts (
      bytes "PersistSnapshot(at="
      ∷ rfc3339 curr.at
      ∷ bytes ", sources="
      ∷ decimal (length curr.sources)
      ∷ prev_total (λ s. length s.sources) prev curr
      ∷ bytes ")\n"
      ∷ texts (map (source_lines prev curr) (sort_strings (keys curr.sources)))
      ∷ [])

  -- GetVerboseInfo, which gives no error
  unfoldable pub persist_verbose : {E : Type 0} → PersistCapturer E → Text
  persist_verbose c = elim c.curr [
    | none ↦ bytes "PersistSnapshot(verbose-empty)"
    | some s ↦ trim_suffix (persist_details c.prev s) (bytes "\n")
  ]

-- IsWarm
abbrev pub persist_is_warm : {E : Type 0} → PersistCapturer E → Bool
persist_is_warm c = is_some c.prev
