-- ===== src/Files/Rotating/Lines.antt =====
-- How each step of JSONFileSink of telemetry.go and AlertFileResponder of response_actions.go changes the
-- lines of all the files.
use mini_edr.Prelude.World.{World, time_now}
use mini_edr.Prelude.{
  suc, ◌+◌, Text, text_eq, Bool, false, [], ◌∷◌, ◌++◌, Option, none, some, Option-cases, inl, inr,
  lookup, tally, tally_one, tally-snoc, is_some, ◌≡◌, refl, ◌∙◌, arith, if◌then◌else◌,
}
use mini_edr.Files.Disk.{
  Disk, contents, erase, attempt, if_done, open_append, append_line, stat_size, rename, tally_lines,
  tally_lines-insert, tally_lines-erase, lookup-erase,
}
use mini_edr.Files.Rotating.{
  RotatingFile, Words, on_disk, update_size, opened, made_dir, ensure_file, rotated_path, renamed,
  rotate, rotate_if_full, wrote,
}

module _ (p : Text → Bool) where
  pub open_append-tally :
      (path : Text) (d : Disk) → tally_lines p (open_append path d).1.files ≡ tally_lines p d.files
  unfolding open_append if_done attempt
  open_append-tally path d = elim (Option-cases (d.faults d.calls)) [
    | inl q ↦ ground (arith, q, tally_lines-insert p path (contents path d.files) d.files)
    | inr (err, q) ↦ ground (arith, q)
  ]

  pub append_line-tally :
      (path line : Text) (d : Disk)
      → tally_lines p (append_line path line d).1.files
        ≡ tally_lines p d.files
          + (if is_some (append_line path line d).0 then 0 else tally_one p (some line))
  unfolding append_line if_done attempt
  append_line-tally path line d = elim (Option-cases (d.faults d.calls)) [
    | inl q ↦ ground (
      arith,
      q,
      tally_lines-insert p path (contents path d.files ++ line ∷ []) d.files,
      tally-snoc p (contents path d.files) line,
    )
    | inr (err, q) ↦ ground (arith, q)
  ]

  pub rename-tally :
      (from to : Text) (d : Disk)
      → lookup to d.files ≡ none
      → tally_lines p (rename from to d).1.files ≡ tally_lines p d.files
  unfolding rename if_done attempt contents tally
  rename-tally from to d fresh = elim (Option-cases (lookup from d.files)) [
    | inl q ↦ ground (arith, q)
    | inr (lines, q) ↦ elim (Option-cases (d.faults d.calls)) [
      | inl ok ↦ ground (
        arith,
        q,
        ok,
        tally_lines-insert p to lines (erase from d.files),
        tally_lines-erase p from d.files,
        lookup-erase from to d.files fresh,
      )
      | inr (err, bad) ↦ ground (arith, q, bad)
    ]
  ]

  -- What the steps of ensureFile, of rotate and of Consume do to the lines of all the files.
  pub opened-tally :
      (words : Words) (r : RotatingFile) (err : Option Text) (d : Disk) (w : World Disk)
      → tally_lines p (opened words r (err, d) w).2.outside.files ≡ tally_lines p d.files
  unfolding opened update_size stat_size attempt
  opened-tally words r none d w = refl
  opened-tally words r (some e) d w = refl

  pub made_dir-tally :
      (words : Words) (r : RotatingFile) (err : Option Text) (d : Disk) (w : World Disk)
      → tally_lines p (made_dir words r (err, d) w).2.outside.files ≡ tally_lines p d.files
  unfolding made_dir
  made_dir-tally words r none d w =
      let (err, d') = open_append r.path d in
      opened-tally words r err d' w ∙ open_append-tally r.path d
  made_dir-tally words r (some e) d w = refl

  pub ensure_file-tally :
      (words : Words) (r : RotatingFile) (w : World Disk)
      → tally_lines p (ensure_file words r w).2.outside.files ≡ tally_lines p w.outside.files
  unfolding ensure_file attempt
  ensure_file-tally words r w =
      let d = w.outside in
      ground (arith, made_dir-tally words r (d.faults d.calls) (record d { calls = suc d.calls }) w)

  pub renamed-tally :
      (words : Words) (r : RotatingFile) (err : Option Text) (d : Disk) (w : World Disk)
      → tally_lines p (renamed words r (err, d) w).2.outside.files ≡ tally_lines p d.files
  unfolding renamed
  renamed-tally words r none d w = ensure_file-tally words r (on_disk w d)
  renamed-tally words r (some e) d w = refl

  pub rotate-tally :
      (words : Words) (r : RotatingFile) (w : World Disk)
      → lookup (rotated_path r.path (w.clock w.reads)) w.outside.files ≡ none
      → tally_lines p (rotate words r w).2.outside.files ≡ tally_lines p w.outside.files
  unfolding rotate time_now
  rotate-tally words r w fresh =
      let to = rotated_path r.path (w.clock w.reads) in
      let (err, d) = rename r.path to w.outside in
      renamed-tally words (record r { is_open = false }) err d (record w { reads = suc w.reads })
      ∙ rename-tally r.path to w.outside fresh

  pub wrote-tally :
      (words : Words) (r : RotatingFile) (err : Option Text) (d : Disk) (w : World Disk)
      → lookup (rotated_path r.path (w.clock w.reads)) d.files ≡ none
      → tally_lines p (wrote words r (err, d) w).2.outside.files ≡ tally_lines p d.files
  unfolding wrote rotate_if_full update_size stat_size attempt
  wrote-tally words r none d w fresh =
      let (r', w') = update_size r (on_disk w d) in ground (arith, rotate-tally words r' w' fresh)
  wrote-tally words r (some e) d w fresh = refl
