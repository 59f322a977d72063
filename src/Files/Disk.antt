-- ===== src/Files/Disk.antt =====
-- What JSONFileSink of telemetry.go and AlertFileResponder of response_actions.go use of the package
-- os: files of lines, where each call may fail. A call that fails changes nothing.
use mini_edr.Prelude.{
  ℕ, suc, ◌+◌, Text, text_eq, bytes, Bool, List, [], ◌∷◌, ◌++◌, Option, none, some, GoMap, lookup,
  insert, length, if◌then◌else◌, ◌==◌, tally, ◌≡◌, arith,
}

-- The n-th call fails with `faults n`, if there is such an error.
pub record Disk : Type 0 where
  pub files : GoMap Text (List Text)
  pub faults : ℕ → Option Text
  pub calls : ℕ

-- The lines of a file, none if it does not exist
unfoldable pub contents : Text → GoMap Text (List Text) → List Text
contents path files = elim (lookup path files) [ none ↦ [] | some lines ↦ lines ]

unfoldable pub erase : Text → GoMap Text (List Text) → GoMap Text (List Text)
erase path [] = []
erase path (entry ∷ files) =
    let rest = erase path files in if entry.0 == path then files else entry ∷ rest

-- A call that has no effect on the files, such as os.MkdirAll
unfoldable pub attempt : Disk → Option Text × Disk
attempt d = (d.faults d.calls, record d { calls = suc d.calls })

unfoldable pub if_done :
    (GoMap Text (List Text) → GoMap Text (List Text)) → Option Text × Disk → Option Text × Disk
if_done f (some err, d) = (some err, d)
if_done f (none, d) = (none, record d { files = f d.files })

-- os.OpenFile(path, os.O_CREATE|os.O_APPEND|os.O_WRONLY, 0o644)
unfoldable pub open_append : Text → Disk → Option Text × Disk
open_append path d = if_done (λ files. insert path (contents path files) files) (attempt d)

-- A write of one line to the open file
unfoldable pub append_line : Text → Text → Disk → Option Text × Disk
append_line path line d =
    if_done (λ files. insert path (contents path files ++ line ∷ []) files) (attempt d)

unfoldable pub total_length : List Text → ℕ
total_length [] = 0
total_length (line ∷ lines) = length line + total_length lines

-- f.Stat(), with the size; `none` on an error
unfoldable pub stat_size : Text → Disk → Option ℕ × Disk
stat_size path d =
    let (err, d') = attempt d in
    (elim err [ some e ↦ none | none ↦ some (total_length (contents path d.files)) ], d')

-- os.Rename: a file that has the new name is lost.
unfoldable pub rename : Text → Text → Disk → Option Text × Disk
rename from to d = elim (lookup from d.files) [
  | none ↦ (some (bytes "no such file or directory"), record d { calls = suc d.calls })
  | some lines ↦ if_done (λ files. insert to lines (erase from files)) (attempt d)
]

-- How many lines of all the files pass a test.
unfoldable pub tally_lines : (Text → Bool) → GoMap Text (List Text) → ℕ
tally_lines p [] = 0
tally_lines p (entry ∷ files) = tally p entry.1 + tally_lines p files

pub tally_lines-insert :
    (p : Text → Bool) (path : Text) (lines : List Text) (files : GoMap Text (List Text))
    → tally_lines p (insert path lines files) + tally p (contents path files)
      ≡ tally_lines p files + tally p lines
unfolding tally_lines insert contents lookup tally
tally_lines-insert p path lines [] = ground arith
tally_lines-insert p path lines (entry ∷ files) =
    ground (arith, tally_lines-insert p path lines files)

pub tally_lines-erase :
    (p : Text → Bool) (path : Text) (files : GoMap Text (List Text))
    → tally_lines p (erase path files) + tally p (contents path files) ≡ tally_lines p files
unfolding tally_lines erase contents lookup tally
tally_lines-erase p path [] = ground arith
tally_lines-erase p path (entry ∷ files) = ground (arith, tally_lines-erase p path files)

pub lookup-erase :
    (path other : Text) (files : GoMap Text (List Text))
    → lookup other files ≡ none
    → lookup other (erase path files) ≡ none
unfolding erase lookup
lookup-erase path other [] h = h
lookup-erase path other (entry ∷ files) h = ground (arith, h, lookup-erase path other files)
