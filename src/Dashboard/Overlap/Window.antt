-- ===== src/Dashboard/Overlap/Window.antt =====
-- Properties of alertsOverlap of dashboard/dashboard.go.
use mini_edr.Prelude.{
  ℕ, ◌+◌, ◌≤◌, ◌<◌, ℤ, pos, negsuc, ◌-ℤ◌, ltb_ℤ, leb_ℤ, pos_part, neg_part, ltb, Text, true, false,
  ◌≡◌, refl, arith, GoMap, lookup, [], ◌∷◌, some, Option-cases, inl, inr, text_eq, if◌then◌else◌,
}
use mini_edr.Prelude.Int.{sub_ℕ}
use mini_edr.Capturer.Info.{Time}
use mini_edr.Dashboard.Overlap.{
  AlertEntry, positive_or, second, truncate, interval_for_alert, max_interval, longest, shared,
  alerts_overlap,
}

ltb_ℤ-antisym : (a b : ℤ) → ltb_ℤ a b ≡ false → ltb_ℤ b a ≡ false → a ≡ b
ltb_ℤ-antisym (pos m) (pos n) h k = ground (arith, h, k)
ltb_ℤ-antisym (pos m) (negsuc n) h k = ground (arith, h, k)
ltb_ℤ-antisym (negsuc m) (pos n) h k = ground (arith, h, k)
ltb_ℤ-antisym (negsuc m) (negsuc n) h k = ground (arith, h, k)

ltb_ℤ-asym : (a b : ℤ) → ltb_ℤ a b ≡ true → ltb_ℤ b a ≡ false
ltb_ℤ-asym a b h = ground (arith, h)

max_comm : (a b : ℤ) → (if ltb_ℤ a b then b else a) ≡ (if ltb_ℤ b a then a else b)
max_comm a b = ground (arith, ltb_ℤ-antisym a b, ltb_ℤ-asym a b)

min_comm : (a b : ℕ) → (if ltb b a then b else a) ≡ (if ltb a b then a else b)
min_comm a b = ground arith

shared_comm : (a : Time) (ia : ℤ) (b : Time) (ib : ℤ) → shared a ia b ib ≡ shared b ib a ia
unfolding shared
shared_comm a ia b ib = rw (max_comm (pos a -ℤ ia) (pos b -ℤ ib), min_comm a b) refl

-- Whether two alerts overlap does not depend on the order in which they are compared.
pub alerts_overlap_comm :
    (a b : AlertEntry) (intervals : GoMap Text ℤ) (default_interval : ℤ)
    → alerts_overlap a b intervals default_interval ≡ alerts_overlap b a intervals default_interval
unfolding alerts_overlap
alerts_overlap_comm a b intervals default_interval = ground (
  arith,
  shared_comm (truncate a.at_time) (interval_for_alert a intervals default_interval)
      (truncate b.at_time) (interval_for_alert b intervals default_interval),
)

sub_ℕ-parts : (a b : ℕ) → pos_part (sub_ℕ a b) + b ≡ a + neg_part (sub_ℕ a b)
sub_ℕ-parts a b = ground arith

-- A window that shares a second with an earlier one starts a second before that one's end.
shared-reach :
    (a : Time) (ia : ℤ) (b : Time) (ib : ℤ)
    → leb_ℤ (pos second) (shared a ia b ib) ≡ true
    → second + b ≤ a + pos_part ib
unfolding shared ◌-ℤ◌
shared-reach a ia b ib h = ground (
  arith,
  h,
  sub_ℕ-parts (b + neg_part ib) (pos_part ib),
  sub_ℕ-parts (a + neg_part ia) (pos_part ia),
)

longest-init : (m : ℤ) (xs : GoMap Text ℤ) → pos_part m ≤ pos_part (longest m xs)
unfolding longest
longest-init m [] = omega arith
longest-init m (x ∷ xs) = ground (arith, longest-init m xs, longest-init x.1 xs)

longest-lookup :
    (k : Text) (v m : ℤ) (xs : GoMap Text ℤ)
    → lookup k xs ≡ some v
    → pos_part v ≤ pos_part (longest m xs)
unfolding longest lookup
longest-lookup k v m [] h = ground (arith, h)
longest-lookup k v m (x ∷ xs) h = ground (
  arith,
  h,
  longest-lookup k v m xs,
  longest-lookup k v x.1 xs,
  longest-init m xs,
  longest-init x.1 xs,
)

interval_for_alert-le :
    (e : AlertEntry) (intervals : GoMap Text ℤ) (d : ℤ)
    → pos_part (interval_for_alert e intervals d) ≤ pos_part (max_interval intervals d)
unfolding interval_for_alert max_interval
interval_for_alert-le e intervals d =
    let base = positive_or d (pos second) in
    elim (Option-cases (lookup e.source intervals)) [
      | inl q ↦ ground (arith, q, longest-init base intervals)
      | inr (v, q) ↦
          ground (arith, q, longest-init base intervals, longest-lookup e.source v base intervals q)
    ]

truncate-near : (t : Time) → (truncate t ≤ t) × (t < truncate t + second)
unfolding truncate
truncate-near t = ground arith

-- correlateAlerts, which goes through the alerts in the order of their times, may end its inner loop
-- at the first alert that is later than the longest interval: an alert that overlaps is not later
-- than that.
pub alerts_overlap-IsNear :
    (a b : AlertEntry) (intervals : GoMap Text ℤ) (default_interval : ℤ)
    → alerts_overlap a b intervals default_interval ≡ true
    → b.at_time ≤ a.at_time + pos_part (max_interval intervals default_interval)
unfolding alerts_overlap
alerts_overlap-IsNear a b intervals default_interval h = ground (
  arith,
  h,
  shared-reach (truncate a.at_time) (interval_for_alert a intervals default_interval)
      (truncate b.at_time) (interval_for_alert b intervals default_interval),
  interval_for_alert-le b intervals default_interval,
  truncate-near a.at_time,
  truncate-near b.at_time,
)
