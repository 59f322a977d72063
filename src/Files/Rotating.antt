-- ===== src/Files/Rotating.antt =====
-- JSONFileSink of telemetry.go and AlertFileResponder of response_actions.go, which differ in the words of
-- their errors alone. The outside world is the disk; the JSON of a report or an alert is given.
pub mod Lines
pub mod Kept
use mini_edr.Prelude.Strings.{decimal_ℤ}
use mini_edr.Prelude.World.{World, time_now}
use mini_edr.Prelude.Fallible.{Fallible, value, failure}
use mini_edr.Prelude.{
  ◌*◌, ◌/◌, ℤ, pos, ◌-ℤ◌, leb_ℤ, is_nonpos, Text, bytes, Bool, true, false, ◌++◌, Option, none,
  some, if◌then◌else◌,
}
use mini_edr.Capturer.Info.{Time}
use mini_edr.Files.Disk.{Disk, attempt, open_append, append_line, stat_size, rename}

-- The file is open if `f` is not nil.
pub record RotatingFile : Type 0 where
  pub path : Text
  pub max_bytes : ℤ
  pub is_open : Bool
  pub size : ℤ

-- The words in front of the errors of MkdirAll, OpenFile and Rename
pub record Words : Type 0 where
  pub mkdir : Text
  pub open_file : Text
  pub rotate : Text

abbrev pub sink_words : Words
sink_words = record {
  mkdir = bytes "mkdir for sink: ";
  open_file = bytes "open sink file: ";
  rotate = bytes "rotate sink file: ";
}

abbrev pub alert_words : Words
alert_words = record {
  mkdir = bytes "mkdir for alert file: ";
  open_file = bytes "open alert file: ";
  rotate = bytes "rotate alert file: ";
}

-- NewJSONFileSink
unfoldable pub new_json_file_sink : Text → ℤ → RotatingFile
new_json_file_sink path max_bytes = record {
  path = path;
  max_bytes = if is_nonpos max_bytes then pos (5 * 1024 * 1024) else max_bytes;
  is_open = false;
  size = pos 0;
}

-- NewAlertFileResponder
unfoldable pub new_alert_file_responder : Text → ℤ → RotatingFile
new_alert_file_responder path max_bytes = record {
  path = path;
  max_bytes = if is_nonpos max_bytes then pos (5 * 1024 * 1024) else max_bytes;
  is_open = false;
  size = pos 0;
}

-- What a method returns: its error, the receiver and the world.
abbrev pub Outcome : Type 0
Outcome = Option Text × RotatingFile × World Disk

abbrev pub on_disk : World Disk → Disk → World Disk
on_disk w d = record w { outside = d }

-- `if stat, err := s.f.Stat(); err == nil { s.size = stat.Size() }`
unfoldable pub update_size : RotatingFile → World Disk → RotatingFile × World Disk
update_size r w =
    let (size, d) = stat_size r.path w.outside in
    (record r { size = elim size [ none ↦ r.size | some n ↦ pos n ] }, on_disk w d)

-- ensureFile after OpenFile has returned
unfoldable pub opened : Words → RotatingFile → Option Text × Disk → World Disk → Outcome
opened words r (some err, d) w = (some (words.open_file ++ err), r, on_disk w d)
opened words r (none, d) w =
    let (r', w') = update_size (record r { is_open = true }) (on_disk w d) in (none, r', w')

-- ensureFile after MkdirAll has returned
unfoldable pub made_dir : Words → RotatingFile → Option Text × Disk → World Disk → Outcome
made_dir words r (some err, d) w = (some (words.mkdir ++ err), r, on_disk w d)
made_dir words r (none, d) w = opened words r (open_append r.path d) w

-- ensureFile
unfoldable pub ensure_file : Words → RotatingFile → World Disk → Outcome
ensure_file words r w = if r.is_open then (none, r, w) else made_dir words r (attempt w.outside) w

-- time.Time.UnixMilli
unfoldable pub unix_milli : Time → ℤ
unix_milli t = pos (t / 1000000) -ℤ pos 62135596800000

-- The name of the file that a rotation at this time makes
unfoldable pub rotated_path : Text → Time → Text
rotated_path path t = path ++ (bytes "." ++ decimal_ℤ (unix_milli t))

-- rotate after Rename has returned
unfoldable pub renamed : Words → RotatingFile → Option Text × Disk → World Disk → Outcome
renamed words r (some err, d) w = (some (words.rotate ++ err), r, on_disk w d)
renamed words r (none, d) w = ensure_file words r (on_disk w d)

-- rotate
unfoldable pub rotate : Words → RotatingFile → World Disk → Outcome
rotate words r w =
    let (t, w') = time_now w in
    let closed = record r { is_open = false } in
    renamed words closed (rename r.path (rotated_path r.path t) w'.outside) w'

-- `if s.size >= s.MaxBytes { return s.rotate() }`
unfoldable pub rotate_if_full : Words → RotatingFile → World Disk → Outcome
rotate_if_full words r w = if leb_ℤ r.max_bytes r.size then rotate words r w else (none, r, w)

-- Consume and Handle after the write has returned
unfoldable pub wrote : Words → RotatingFile → Option Text × Disk → World Disk → Outcome
wrote words r (some err, d) w = (some err, r, on_disk w d)
wrote words r (none, d) w = let (r', w') = update_size r (on_disk w d) in rotate_if_full words r' w'

-- Encode: the JSON, or its error, and the write
unfoldable pub encode_to : Text → Fallible Text → Disk → Option Text × Disk
encode_to path (failure err) d = (some err, d)
encode_to path (value line) d = append_line path line d

-- Consume and Handle after ensureFile has returned
unfoldable pub ensured : Words → Fallible Text → Outcome → Outcome
ensured words encoded (some err, r, w) = (some err, r, w)
ensured words encoded (none, r, w) = wrote words r (encode_to r.path encoded w.outside) w

-- Consume and Handle of what has this JSON
unfoldable pub write_line : Words → Fallible Text → RotatingFile → World Disk → Outcome
write_line words encoded r w = ensured words encoded (ensure_file words r w)

-- (*JSONFileSink).Consume
unfoldable pub consume : Fallible Text → RotatingFile → World Disk → Outcome
consume encoded r w = write_line sink_words encoded r w

-- (*AlertFileResponder).Handle
unfoldable pub alert_handle : Fallible Text → RotatingFile → World Disk → Outcome
alert_handle encoded r w = write_line alert_words encoded r w
