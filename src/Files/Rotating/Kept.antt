-- ===== src/Files/Rotating/Kept.antt =====
-- The lines that JSONFileSink of telemetry.go and AlertFileResponder of response_actions.go keep.
use mini_edr.Prelude.World.{World}
use mini_edr.Prelude.Fallible.{Fallible, value, failure}
use mini_edr.Prelude.{
  ℕ, suc, ◌+◌, ap, Bool-cases, Text, text_eq, text_beq_iff, Bool, true, List, [], ◌∷◌, ◌++◌, Option,
  none, some, inl, inr, GoMap, lookup, insert, lookup-insert, tally_one, is_some, ◌≡◌, ◌≢◌, ◌⊎◌,
  refl, ◌∙◌, arith, if◌then◌else◌, length, length-append,
}
use mini_edr.Capturer.Info.{Time}
use mini_edr.Files.Disk.{
  Disk, contents, attempt, if_done, open_append, append_line, stat_size, tally_lines,
}
use mini_edr.Files.Rotating.{
  RotatingFile, Words, Outcome, update_size, opened, made_dir, ensure_file, rotated_path, wrote,
  encode_to, ensured, write_line,
}
use mini_edr.Files.Rotating.Lines.{append_line-tally, ensure_file-tally, wrote-tally}

-- A rotation gives the file another name.
rotated_path-apart : (path : Text) (t : Time) → rotated_path path t ≢ path
unfolding rotated_path
rotated_path-apart path t e =
    let longer = length-append path (rotated_path [] t) in omega (arith, longer, ap length e)

-- A step of ensureFile leaves the time, the path, and what is not under the path.
abbrev Steady : Text → RotatingFile → World Disk → Outcome → Type 0
Steady other r w out =
    (out.1.path ≡ r.path)
    × (out.2.clock ≡ w.clock)
    × (out.2.reads ≡ w.reads)
    × (lookup other out.2.outside.files ≡ none)

put-none :
    (path other : Text) (f : GoMap Text (List Text) → List Text) (err : Option Text) (d : Disk)
    → other ≢ path
    → lookup other d.files ≡ none
    → lookup other (if_done (λ files. insert path (f files) files) (err, d)).1.files ≡ none
unfolding if_done
put-none path other f none d apart h =
    ground (arith, h, apart, lookup-insert path other (f d.files) d.files, text_beq_iff path other)
put-none path other f (some err) d apart h = h

opened-Steady :
    (words : Words) (r : RotatingFile) (err : Option Text) (d : Disk) (w : World Disk)
    (other : Text)
    → lookup other d.files ≡ none
    → Steady other r w (opened words r (err, d) w)
unfolding opened update_size stat_size attempt
opened-Steady words r none d w other h = (refl, refl, refl, h)
opened-Steady words r (some e) d w other h = (refl, refl, refl, h)

made_dir-Steady :
    (words : Words) (r : RotatingFile) (err : Option Text) (d : Disk) (w : World Disk)
    (other : Text)
    → other ≢ r.path
    → lookup other d.files ≡ none
    → Steady other r w (made_dir words r (err, d) w)
unfolding made_dir open_append attempt
made_dir-Steady words r none d w other apart h =
    let (err, d') = open_append r.path d in
    opened-Steady words r err d' w other (
      put-none r.path other (contents r.path) (d.faults d.calls) (record d { calls = suc d.calls })
        apart h)
made_dir-Steady words r (some e) d w other apart h = (refl, refl, refl, h)

ensure_file-Steady :
    (words : Words) (r : RotatingFile) (w : World Disk) (other : Text)
    → other ≢ r.path
    → lookup other w.outside.files ≡ none
    → Steady other r w (ensure_file words r w)
unfolding ensure_file attempt
ensure_file-Steady words r w other apart h =
    let d = w.outside in
    let made =
      made_dir-Steady words r (d.faults d.calls) (record d { calls = suc d.calls }) w other apart
        h in
    elim (Bool-cases r.is_open) [
      | inl already ↦ ground (arith, already, h)
      | inr closed ↦ ground (arith, closed, made.0, made.1, made.2, made.3)
    ]

-- One more line is kept, or an error is returned and the lines are those from before.
abbrev pub IsKept : (Text → Bool) → Fallible Text → ℕ → Outcome → Type 0
IsKept p encoded before out =
    ((is_some out.0 ≡ true) × (tally_lines p out.2.outside.files ≡ before))
    ⊎ ((line : Text) × (encoded ≡ value line)
        × (tally_lines p out.2.outside.files ≡ before + tally_one p (some line)))

wrote_error :
    (words : Words) (r : RotatingFile) (err : Text) (d : Disk) (w : World Disk)
    → is_some (wrote words r (some err, d) w).0 ≡ true
unfolding wrote
wrote_error words r err d w = refl

module _ (p : Text → Bool) (words : Words) where
  wrote-IsKept :
      (line : Text) (r : RotatingFile) (err : Option Text) (d : Disk) (w : World Disk) (before : ℕ)
      → lookup (rotated_path r.path (w.clock w.reads)) d.files ≡ none
      → tally_lines p d.files ≡ before + (if is_some err then 0 else tally_one p (some line))
      → IsKept p (value line) before (wrote words r (err, d) w)
  wrote-IsKept line r none d w before fresh grown =
      inr (line, refl, wrote-tally p words r none d w fresh ∙ grown)
  wrote-IsKept line r (some err) d w before fresh grown = inl (
    wrote_error words r err d w,
    wrote-tally p words r (some err) d w fresh ∙ omega (arith, grown),
  )

  encoded-IsKept :
      (encoded : Fallible Text) (r : RotatingFile) (w : World Disk) (before : ℕ)
      → lookup (rotated_path r.path (w.clock w.reads)) w.outside.files ≡ none
      → tally_lines p w.outside.files ≡ before
      → IsKept p encoded before (wrote words r (encode_to r.path encoded w.outside) w)
  unfolding encode_to wrote append_line attempt
  encoded-IsKept (failure err) r w before fresh same = inl (refl, same)
  encoded-IsKept (value line) r w before fresh same =
      let d = w.outside in
      let (err, d') = append_line r.path line d in
      wrote-IsKept line r err d' w before
        (put-none r.path (rotated_path r.path (w.clock w.reads))
          (λ files. contents r.path files ++ line ∷ []) (d.faults d.calls)
          (record d { calls = suc d.calls }) (rotated_path-apart r.path (w.clock w.reads)) fresh)
        (ground (arith, append_line-tally p r.path line d, same))

  ensured-IsKept :
      (encoded : Fallible Text) (r : RotatingFile) (err : Option Text) (w : World Disk) (before : ℕ)
      → lookup (rotated_path r.path (w.clock w.reads)) w.outside.files ≡ none
      → tally_lines p w.outside.files ≡ before
      → IsKept p encoded before (ensured words encoded (err, r, w))
  unfolding ensured
  ensured-IsKept encoded r none w before fresh same = encoded-IsKept encoded r w before fresh same
  ensured-IsKept encoded r (some err) w before fresh same = inl (refl, same)

  -- Consume and Handle lose no line that stands in a file, whatever call fails, also in a rotation: by any
  -- test of lines, the files hold as many as before and an error is returned, or they hold the new
  -- line besides. The name that a rotation would give must be free; os.Rename would overwrite.
  pub write_line-IsKept :
      (encoded : Fallible Text) (r : RotatingFile) (w : World Disk)
      → lookup (rotated_path r.path (w.clock w.reads)) w.outside.files ≡ none
      → IsKept p encoded (tally_lines p w.outside.files) (write_line words encoded r w)
  unfolding write_line
  write_line-IsKept encoded r w fresh =
      let name = rotated_path r.path (w.clock w.reads) in
      let (path, clock, reads, free) =
        ensure_file-Steady words r w name (rotated_path-apart r.path (w.clock w.reads)) fresh in
      let (err, r', w') = ensure_file words r w in
      let renamed_to : rotated_path r'.path (w'.clock w'.reads) ≡ name = cc (path, clock, reads) in
      ensured-IsKept encoded r' err w' (tally_lines p w.outside.files)
        (ap (λ x. lookup x w'.outside.files) renamed_to ∙ free) (ensure_file-tally p words r w)
