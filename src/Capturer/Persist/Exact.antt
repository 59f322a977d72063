-- ===== src/Capturer/Persist/Exact.antt =====
-- Which changes PersistCapturer of capturer/persistent.go reports.
use mini_edr.Prelude.World.{World, time_now}
use mini_edr.Prelude.Fallible.{Fallible-cases}
use mini_edr.Prelude.{
  suc, ap, Text, text_eq, true, false, List, [], ◌∷◌, Option, none, some, Bool-cases, inl, inr,
  GoMap, Keyed, insert-Keyed, lookup, has, insert, keys_missing, keys_missing_iff, is_empty, ◌∙◌,
  Among, ◌≡◌, ◌≢◌, ◌↔◌, refl, sym, arith, subst,
}
use mini_edr.Capturer.Info.{Time}
use mini_edr.Capturer.Persist.{
  Entries, PersistSource, PersistSnapshot, PersistCapturer, PersistError, entries_of, read_sources,
  at_name, changed_keys, persist_snapshot, take_persist, capture_persist,
}
use mini_edr.Capturer.Persist.Loops.{changed_keys_iff, diff_sources-own, diff_sources-sources}

module _ {E : Type 0} where
  -- No name stands twice among what has been read.
  read_sources-Keyed :
      (sources : List (Option (PersistSource E))) (found : GoMap Text Entries) (w : World E)
      → Keyed found
      → Keyed (read_sources sources found w).1
  unfolding read_sources
  read_sources-Keyed [] found w keyed = keyed
  read_sources-Keyed (none ∷ sources) found w keyed = read_sources-Keyed sources found w keyed
  read_sources-Keyed (some src ∷ sources) found w keyed =
      let (result, w') = src.snapshot w in
      elim (Fallible-cases result) [
        | inl (m, q) ↦ ground (
          arith,
          q,
          read_sources-Keyed sources (insert src.name (entries_of m) found) w'
              (insert-Keyed src.name (entries_of m) found keyed),
        )
        | inr (err, q) ↦ ground (arith, q, keyed)
      ]

-- The changes of the source `name` from `last` to `s`, by a key.
abbrev pub IsListed : PersistSnapshot → PersistSnapshot → Text → Text → Type 0
IsListed last s name key =
    let before = at_name name last.sources in
    let now = at_name name s.sources in
    (Among key (at_name name s.added) ↔ ((has key now ≡ true) × (has key before ≡ false)))
    × (Among key (at_name name s.changed)
        ↔ ((has key before ≡ true) × (has key now ≡ true) × (lookup key before ≢ lookup key now)))
    × (Among key (at_name name s.removed) ↔ ((has key before ≡ true) × (has key now ≡ false)))

module _ (sort_strings : List Text → List Text) where
  persist_snapshot-sources :
      (last : PersistSnapshot) (at : Time) (sources : GoMap Text Entries)
      → (persist_snapshot sort_strings (some last) at sources).sources ≡ sources
  unfolding persist_snapshot
  persist_snapshot-sources last at sources =
      diff_sources-sources sort_strings last.sources sources _

  persist_snapshot-IsListed :
      (last : PersistSnapshot) (at : Time) (sources : GoMap Text Entries) (name key : Text)
      (now : Entries)
      → ((xs : List Text) (x : Text) → Among x (sort_strings xs) ↔ Among x xs)
      → Keyed sources
      → lookup name sources ≡ some now
      → Keyed now
      → IsListed last (persist_snapshot sort_strings (some last) at sources) name key
  unfolding persist_snapshot at_name lookup
  persist_snapshot-IsListed last at sources name key now sorts keyed here distinct =
      let before = at_name name last.sources in
      let bare : PersistSnapshot = record {
        at = at;
        sources = sources;
        added = [];
        removed = [];
        changed = [];
      } in
      let own =
        diff_sources-own sort_strings last.sources sources name now bare keyed here
          (refl, refl, refl) in
      let same = diff_sources-sources sort_strings last.sources sources bare in
      ground (
        arith,
        own.0,
        own.1,
        own.2,
        same,
        here,
        sorts (keys_missing now before) key,
        sorts (changed_keys before now) key,
        sorts (keys_missing before now) key,
        keys_missing_iff key now before,
        changed_keys_iff before now key distinct,
        keys_missing_iff key before now,
      )

  take_persist-IsListed :
      {E : Type 0} (c : PersistCapturer E) (at : Time) (err : Option PersistError)
      (sources : GoMap Text Entries) (w : World E) (last s : PersistSnapshot) (name key : Text)
      (now : Entries)
      → ((xs : List Text) (x : Text) → Among x (sort_strings xs) ↔ Among x xs)
      → c.curr ≡ some last
      → Keyed sources
      → (take_persist sort_strings c at (err, sources, w)).0 ≡ none
      → (take_persist sort_strings c at (err, sources, w)).1.curr ≡ some s
      → lookup name s.sources ≡ some now
      → Keyed now
      → IsListed last s name key
  unfolding take_persist
  take_persist-IsListed c at (some err) sources w last s name key now sorts had keyed done next here
        distinct =
      ground (arith, done)
  take_persist-IsListed c at none sources w last s name key now sorts had keyed done next here
        distinct =
      let snap : persist_snapshot sort_strings (some last) at sources ≡ s =
        ground (arith, had, next) in
      let kept : s.sources ≡ sources =
        ap (λ t. t.sources) (sym snap) ∙ persist_snapshot-sources last at sources in
      subst (λ t. IsListed last t name key) snap
        (persist_snapshot-IsListed last at sources name key now sorts keyed
          (ap (λ t. lookup name t) (sym kept) ∙ here) distinct)

  -- A capture that succeeds after another reports exactly the changes of each source that it has read: a
  -- key is listed as added, as changed or as removed if and only if it is new, has another text, or is
  -- gone. The entries of the source hold no key twice, as in any Go map, and sort.Strings must keep
  -- the elements.
  pub capture_persist-IsListed :
      {E : Type 0} (c : PersistCapturer E) (w : World E) (last s : PersistSnapshot)
      (name key : Text) (now : Entries)
      → ((xs : List Text) (x : Text) → Among x (sort_strings xs) ↔ Among x xs)
      → c.curr ≡ some last
      → (capture_persist sort_strings c w).0 ≡ none
      → (capture_persist sort_strings c w).1.curr ≡ some s
      → lookup name s.sources ≡ some now
      → Keyed now
      → IsListed last s name key
  unfolding capture_persist time_now
  capture_persist-IsListed c w last s name key now sorts had done next here distinct =
      elim (Bool-cases (is_empty c.sources)) [
        | inl nothing ↦ ground (arith, nothing, done)
        | inr given ↦
            let w' = record w { reads = suc w.reads } in
            let read = read_sources c.sources [] w' in
            take_persist-IsListed c (w.clock w.reads) read.0 read.1 read.2 last s name key now sorts
              had (read_sources-Keyed c.sources [] w' tt) (ground (arith, given, done))
              (ground (arith, given, next)) here distinct
      ]
