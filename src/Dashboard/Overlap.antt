-- ===== src/Dashboard/Overlap.antt =====
-- alertsOverlap of dashboard/dashboard.go, with the intervals that it and correlateAlerts use. An
-- instant before the zero time is a negative number of nanoseconds.
pub mod Window
pub mod Correlate
use mini_edr.Prelude.{
  ℕ, ◌-◌, ◌%◌, ℤ, pos, ◌-ℤ◌, ltb_ℤ, leb_ℤ, is_nonpos, ltb, Text, text_eq, Bool, ◌&&◌, not, [], ◌∷◌,
  Option, none, some, GoMap, lookup, if◌then◌else◌,
}
use mini_edr.Capturer.Info.{Time, is_zero}
use mini_edr.Detection.Types.{Severity}

pub record AlertEntry : Type 0 where
  pub id : Text
  pub at : Text
  pub at_time : Time
  pub severity : Severity
  pub title : Text
  pub message : Text
  pub rule_id : Text
  pub source : Text
  pub evidence : Text
  pub meta : Text
  pub related : Text

-- time.Second
abbrev pub second : ℕ
second = 1000000000

-- t.Truncate(time.Second)
unfoldable pub truncate : Time → Time
truncate t = t - t % second

abbrev pub or_nought : Option ℤ → ℤ
or_nought none = pos 0
or_nought (some d) = d

abbrev pub positive_or : ℤ → ℤ → ℤ
positive_or d fallback = if is_nonpos d then fallback else d

-- intervalForAlert
unfoldable pub interval_for_alert : AlertEntry → GoMap Text ℤ → ℤ → ℤ
interval_for_alert entry intervals default_interval =
    positive_or (positive_or (or_nought (lookup entry.source intervals)) default_interval)
      (pos second)

-- `for _, v := range intervals { if v > maxInterval { maxInterval = v } }`
unfoldable pub longest : ℤ → GoMap Text ℤ → ℤ
longest m [] = m
longest m (entry ∷ rest) = longest (if ltb_ℤ m entry.1 then entry.1 else m) rest

-- The interval after which correlateAlerts ends its inner loop.
unfoldable pub max_interval : GoMap Text ℤ → ℤ → ℤ
max_interval intervals default_interval =
    longest (positive_or default_interval (pos second)) intervals

-- The length of the common part of two windows that end at `a` and `b`, as alertsOverlap has it.
unfoldable pub shared : Time → ℤ → Time → ℤ → ℤ
shared a ia b ib =
    let a_start = pos a -ℤ ia in
    let b_start = pos b -ℤ ib in
    let start = if ltb_ℤ a_start b_start then b_start else a_start in
    let end = if ltb b a then b else a in pos end -ℤ start

unfoldable pub alerts_overlap : AlertEntry → AlertEntry → GoMap Text ℤ → ℤ → Bool
alerts_overlap a b intervals default_interval =
    not (is_zero a.at_time)
    && not (is_zero b.at_time)
    && leb_ℤ (pos second) (
        shared (truncate a.at_time) (interval_for_alert a intervals default_interval)
          (truncate b.at_time) (interval_for_alert b intervals default_interval))
