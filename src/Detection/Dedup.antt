-- ===== src/Detection/Dedup.antt =====
-- AlertDeduper of detection.go. The mutex makes a call one step; a nil map reads as the empty one.
pub mod Reference
pub mod Spacing
use mini_edr.Prelude.{
  ℤ, Text, Bool, true, false, List, [], ◌∷◌, Option, none, some, GoMap, lookup, insert, is_nonpos,
  ltb, if◌then◌else◌, text_eq,
}
use mini_edr.Capturer.Info.{Time}
use mini_edr.Detection.Types.{Alert, World, time_now, add_duration, alert_key}

abbrev pub Seen : Type 0
Seen = GoMap Text Time

pub record AlertDeduper : Type 0 where
  pub window : ℤ
  pub seen : Seen

-- `exp, ok := d.seen[key]; ok && now.Before(exp)`
unfoldable pub is_live : Time → Option Time → Bool
is_live now none = false
is_live now (some exp) = ltb now exp

module _ {F : Type 0} where
  -- One round of the loop: whether the alert goes out, and the map.
  unfoldable pub dedup_step : Time → ℤ → Alert F → Seen → Bool × Seen
  unfolding is_live alert_key
  dedup_step now window a seen =
      if is_live now (lookup (alert_key a) seen)
      then (false, seen)
      else (true, insert (alert_key a) (add_duration now window) seen)

  unfoldable pub dedup_loop : Time → ℤ → List (Alert F) → Seen → List (Alert F) × Seen
  unfolding dedup_step
  dedup_loop now window [] seen = ([], seen)
  dedup_loop now window (a ∷ alerts) seen =
      let (release, seen') = dedup_step now window a seen in
      let (out, seen'') = dedup_loop now window alerts seen' in
      (if release then a ∷ out else out, seen'')

  -- (*AlertDeduper).Filter on a deduper that is not nil
  unfoldable pub dedup_filter :
      {E : Type 0}
      → AlertDeduper
      → List (Alert F)
      → World E
      → List (Alert F) × AlertDeduper × World E
  unfolding dedup_loop time_now
  dedup_filter d alerts w =
      if is_nonpos d.window
      then (alerts, d, w)
      else (let (now, w') = time_now w in
          let (out, seen) = dedup_loop now d.window alerts d.seen in
          (out, record d { seen = seen }, w'))
