-- ===== src/Capturer/Persist/Loops.antt =====
-- What the loops of PersistCapturer in capturer/persistent.go list.
use mini_edr.Prelude.{
  Text, text_eq, text_beq, text_beq_iff, true, false, List, [], ◌∷◌, some, Option-cases, Bool-cases,
  inl, inr, GoMap, Keyed, lookup, has, lookup-insert, keys_missing, is_empty, not, ◌&&◌, ◌∙◌, Among,
  ◌≡◌, ◌≢◌, ◌↔◌, refl, sym, arith, if◌then◌else◌, subst,
}
use mini_edr.Capturer.Persist.{
  Entries, PersistSnapshot, at_name, changed_keys, put_keys, diff_source, diff_sources,
}

pub changed_keys_iff :
    (before now : Entries) (key : Text)
    → Keyed now
    → Among key (changed_keys before now)
      ↔ ((has key before ≡ true) × (has key now ≡ true) × (lookup key before ≢ lookup key now))
unfolding changed_keys lookup
changed_keys_iff before [] key keyed = ground arith
changed_keys_iff before (entry ∷ now) key keyed =
    let rest = changed_keys_iff before now key keyed.1 in
    elim (Option-cases (lookup entry.0 before)) [
      | inl q ↦ ground (arith, q, rest, text_beq_iff entry.0 key)
      | inr (old, q) ↦ ground (arith, q, rest, text_beq_iff entry.0 key, text_beq_iff old entry.1)
    ]

put_keys-at_name :
    (name other : Text) (keys : List Text) (m : GoMap Text (List Text))
    → at_name other (put_keys name keys m)
      ≡ (if text_beq name other && not (is_empty keys) then keys else at_name other m)
unfolding put_keys at_name
put_keys-at_name name other [] m = ground arith
put_keys-at_name name other (k ∷ keys) m = ground (arith, lookup-insert name other (k ∷ keys) m)

put_own :
    (name : Text) (keys : List Text) (m : GoMap Text (List Text))
    → at_name name m ≡ []
    → at_name name (put_keys name keys m) ≡ keys
put_own name [] m e = ground (arith, e, put_keys-at_name name name [] m)
put_own name (k ∷ keys) m e =
    ground (arith, put_keys-at_name name name (k ∷ keys) m, text_beq_iff name name)

-- The snapshot lists these keys under the name.
abbrev AtName : Text → PersistSnapshot → List Text → List Text → List Text → Type 0
AtName name s added changed removed =
    (at_name name s.added ≡ added)
    × (at_name name s.changed ≡ changed)
    × (at_name name s.removed ≡ removed)

module _ (sort_strings : List Text → List Text) where
  diff_source-other :
      (before : Entries) (name other : Text) (now : Entries) (s : PersistSnapshot)
      → text_beq name other ≡ false
      → AtName other
          (diff_source sort_strings before name now s)
          (at_name other s.added)
          (at_name other s.changed)
          (at_name other s.removed)
  unfolding diff_source
  diff_source-other before name other now s apart = (
    ground (
      arith,
      apart,
      put_keys-at_name name other (sort_strings (keys_missing now before)) s.added,
    ),
    ground (
      arith,
      apart,
      put_keys-at_name name other (sort_strings (changed_keys before now)) s.changed,
    ),
    ground (
      arith,
      apart,
      put_keys-at_name name other (sort_strings (keys_missing before now)) s.removed,
    ),
  )

  diff_source-own :
      (before : Entries) (name : Text) (now : Entries) (s : PersistSnapshot)
      → AtName name s [] [] []
      → AtName name
          (diff_source sort_strings before name now s)
          (sort_strings (keys_missing now before))
          (sort_strings (changed_keys before now))
          (sort_strings (keys_missing before now))
  unfolding diff_source
  diff_source-own before name now s (a, c, r) = (
    put_own name (sort_strings (keys_missing now before)) s.added a,
    put_own name (sort_strings (changed_keys before now)) s.changed c,
    put_own name (sort_strings (keys_missing before now)) s.removed r,
  )

  diff_sources-other :
      (before sources : GoMap Text Entries) (other : Text) (s : PersistSnapshot)
      → has other sources ≡ false
      → AtName other
          (diff_sources sort_strings before sources s)
          (at_name other s.added)
          (at_name other s.changed)
          (at_name other s.removed)
  unfolding diff_sources lookup
  diff_sources-other before [] other s missing = (refl, refl, refl)
  diff_sources-other before (entry ∷ sources) other s missing =
      let apart : text_beq entry.0 other ≡ false = ground (arith, missing) in
      let later : has other sources ≡ false = ground (arith, missing) in
      let first = diff_source sort_strings (at_name entry.0 before) entry.0 entry.1 s in
      let one = diff_source-other (at_name entry.0 before) entry.0 other entry.1 s apart in
      let rest = diff_sources-other before sources other first later in
      (rest.0 ∙ one.0, rest.1 ∙ one.1, rest.2 ∙ one.2)

  pub diff_sources-own :
      (before sources : GoMap Text Entries) (name : Text) (now : Entries) (s : PersistSnapshot)
      → Keyed sources
      → lookup name sources ≡ some now
      → AtName name s [] [] []
      → AtName name
          (diff_sources sort_strings before sources s)
          (sort_strings (keys_missing now (at_name name before)))
          (sort_strings (changed_keys (at_name name before) now))
          (sort_strings (keys_missing (at_name name before) now))
  unfolding diff_sources lookup
  diff_sources-own before [] name now s keyed here none_yet = ground (arith, here)
  diff_sources-own before (entry ∷ sources) name now s keyed here none_yet =
      let first = diff_source sort_strings (at_name entry.0 before) entry.0 entry.1 s in
      elim (Bool-cases (text_beq entry.0 name)) [
        | inl same ↦
            let e : entry.0 ≡ name = (text_beq_iff entry.0 name).0 same in
            let n : entry.1 ≡ now = ground (arith, here, same) in
            let empty = subst (λ m. AtName m s [] [] []) (sym e) none_yet in
            let one = diff_source-own (at_name entry.0 before) entry.0 entry.1 s empty in
            let rest = diff_sources-other before sources entry.0 first keyed.0 in
            (cc (e, n, rest.0, one.0), cc (e, n, rest.1, one.1), cc (e, n, rest.2, one.2))
        | inr apart ↦
            let one = diff_source-other (at_name entry.0 before) entry.0 name entry.1 s apart in
            diff_sources-own before sources name now first keyed.1 (ground (arith, here, apart))
              (one.0 ∙ none_yet.0, one.1 ∙ none_yet.1, one.2 ∙ none_yet.2)
      ]

  pub diff_sources-sources :
      (before sources : GoMap Text Entries) (s : PersistSnapshot)
      → (diff_sources sort_strings before sources s).sources ≡ s.sources
  unfolding diff_sources diff_source
  diff_sources-sources before [] s = refl
  diff_sources-sources before (entry ∷ sources) s = diff_sources-sources before sources _
