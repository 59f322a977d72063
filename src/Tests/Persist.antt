-- ===== src/Tests/Persist.antt =====
-- capturer/persistent.go: an instance.
use mini_edr.Prelude.World.{time_now}
use mini_edr.Prelude.Fallible.{value}
use mini_edr.Prelude.{
  ℕ, int_eq, Text, text_eq, text_beq, bytes, List, [], ◌∷◌, none, some, lookup, insert,
  keys_missing, keep, refl, int_floats,
}
use mini_edr.Capturer.Conn.{conn_id_eq}
use mini_edr.Capturer.Persist.{
  Entries, PersistSnapshot, PersistCapturer, capture_persist, take_persist, read_sources,
  persist_snapshot, diff_sources, diff_source, put_keys, at_name, changed_keys,
}
use mini_edr.Capturer.Persist.Exact.{IsListed, capture_persist-IsListed}
use mini_edr.Tests.Samples.{world_at}

abbrev cron_before : PersistSnapshot
cron_before = record {
  at = 1;
  sources = (bytes "cron", (bytes "a", bytes "1") ∷ (bytes "b", bytes "1") ∷ []) ∷ [];
  added = [];
  removed = [];
  changed = [];
}

abbrev cron_entries : Entries
cron_entries = (bytes "b", bytes "2") ∷ (bytes "c", bytes "1") ∷ []

abbrev cron_capturer : PersistCapturer ℕ
cron_capturer = record {
  sources =
      none
      ∷ some (record { name = bytes "cron"; snapshot = λ w. (value (some cron_entries), w) })
      ∷ [];
  prev = none;
  curr = some cron_before;
}

abbrev texts_as_they_stand : List Text → List Text
texts_as_they_stand texts = texts

abbrev cron_now : PersistSnapshot
cron_now = record {
  at = 1000;
  sources = (bytes "cron", cron_entries) ∷ [];
  added = (bytes "cron", bytes "c" ∷ []) ∷ [];
  removed = (bytes "cron", bytes "a" ∷ []) ∷ [];
  changed = (bytes "cron", bytes "b" ∷ []) ∷ [];
}

capture_persist-IsListed_example : IsListed cron_before cron_now (bytes "cron") (bytes "c")
unfolding capture_persist take_persist read_sources persist_snapshot diff_sources diff_source
    put_keys at_name changed_keys keys_missing keep lookup insert text_beq time_now
capture_persist-IsListed_example =
    capture_persist-IsListed texts_as_they_stand cron_capturer (world_at 0 0) cron_before cron_now
      (bytes "cron") (bytes "c") cron_entries (λ xs x. (λ h. h, λ h. h)) refl refl refl refl
      (refl, (refl, tt))
