-- ===== src/Tests/Files.antt =====
-- telemetry.go and response_actions.go: runs of the rotating files, and an instance.
use mini_edr.Prelude.Strings.{decimal, decimal_fuel, decimal_ℤ}
use mini_edr.Prelude.World.{World, time_now}
use mini_edr.Prelude.Fallible.{value}
use mini_edr.Prelude.{
  ◌*◌, pos, ◌-ℤ◌, Text, text_eq, text_beq, bytes, Bool, true, [], ◌∷◌, none, lookup, insert, ◌≡◌,
  refl,
}
use mini_edr.Files.Disk.{
  Disk, contents, erase, attempt, if_done, open_append, append_line, stat_size, total_length,
  rename, tally_lines,
}
use mini_edr.Files.Rotating.{
  RotatingFile, sink_words, new_json_file_sink, rotated_path, unix_milli, write_line, consume,
  ensured, ensure_file, made_dir, opened, update_size, wrote, rotate_if_full, rotate, renamed,
  encode_to,
}
use mini_edr.Files.Rotating.Kept.{IsKept, write_line-IsKept}

abbrev log : RotatingFile
log = new_json_file_sink (bytes "l") (pos 4)

-- One second after the beginning of 1970, in every reading.
abbrev still_world : World Disk
still_world = record {
  clock = λ n. 62135596801000 * 1000000;
  reads = 0;
  outside = record { files = (bytes "l", bytes "a" ∷ []) ∷ []; faults = λ n. none; calls = 0 };
}

abbrev any_line : Text → Bool
any_line line = true

write_line-IsKept_example :
    IsKept any_line
      (value (bytes "bbb"))
      (tally_lines any_line still_world.outside.files)
      (write_line sink_words (value (bytes "bbb")) log still_world)
unfolding new_json_file_sink rotated_path unix_milli lookup text_beq ◌-ℤ◌ decimal_ℤ decimal
    decimal_fuel
write_line-IsKept_example =
    write_line-IsKept any_line sink_words (value (bytes "bbb")) log still_world refl

-- The line makes the file full, so it goes to another name, and an empty file is opened.
consume-rotates :
    ((consume (value (bytes "bbb")) log still_world).2.outside.files
      ≡ (bytes "l.1000", bytes "a" ∷ bytes "bbb" ∷ []) ∷ (bytes "l", []) ∷ [])
unfolding consume new_json_file_sink write_line ensured ensure_file made_dir attempt opened
    open_append if_done wrote encode_to append_line update_size stat_size rotate_if_full
    total_length contents lookup erase rename renamed rotate rotated_path unix_milli ◌-ℤ◌ insert
    decimal decimal_fuel decimal_ℤ text_beq time_now
consume-rotates = refl

-- A second rotation in the same millisecond overwrites the lines of the first.
consume-overwrites :
    let (err, r, w) = consume (value (bytes "bbb")) log still_world in
    let (err', r', w') = consume (value (bytes "cccc")) r w in
    w'.outside.files ≡ (bytes "l.1000", bytes "cccc" ∷ []) ∷ (bytes "l", []) ∷ []
unfolding consume new_json_file_sink write_line ensured ensure_file made_dir attempt opened
    open_append if_done wrote encode_to append_line update_size stat_size rotate_if_full
    total_length contents lookup erase rename renamed rotate rotated_path unix_milli ◌-ℤ◌ insert
    decimal decimal_fuel decimal_ℤ text_beq time_now
consume-overwrites = refl
