-- ===== src/Detection/RateLimit.antt =====
-- RateLimiter of detection.go. The mutex makes a call one step; nil maps read as empty ones.
pub mod Reference
pub mod Bounds
use mini_edr.Prelude.{
  ℕ, suc, ℤ, Text, Bool, true, false, ◌||◌, List, [], ◌∷◌, Option, none, some, GoMap, lookup,
  insert, is_nonpos, ltb, leb, pos_part, if◌then◌else◌, text_eq,
}
use mini_edr.Capturer.Info.{Time}
use mini_edr.Detection.Types.{Alert, World, time_now, add_duration, alert_key}

-- The maps `count` and `reset`.
pub record Windows : Type 0 where
  pub count : GoMap Text ℕ
  pub reset : GoMap Text Time

pub record RateLimiter : Type 0 where
  pub window : ℤ
  pub burst : ℤ
  pub windows : Windows

-- r.count[key], which is 0 for a missing key
abbrev pub count_or_zero : Option ℕ → ℕ
count_or_zero none = 0
count_or_zero (some n) = n

-- `resetAt, ok := r.reset[key]; !ok || now.After(resetAt)`
unfoldable pub has_expired : Time → Option Time → Bool
has_expired now none = true
has_expired now (some reset_at) = ltb reset_at now

-- The maps after the window of a key was opened anew where it had expired.
unfoldable pub roll : Time → ℤ → Text → Windows → Windows
unfolding has_expired
roll now window key ws =
    if has_expired now (lookup key ws.reset)
    then (record {
      count = insert key 0 ws.count;
      reset = insert key (add_duration now window) ws.reset;
    })
    else ws

module _ {F : Type 0} where
  -- One round of the loop: whether the alert is flagged, and the maps.
  unfoldable pub limit_step : Time → ℤ → ℤ → Alert F → Windows → Bool × Windows
  unfolding roll alert_key
  limit_step now window burst a ws =
      let ws' = roll now window (alert_key a) ws in
      let n = count_or_zero (lookup (alert_key a) ws'.count) in
      if leb (pos_part burst) n
      then (true, ws')
      else (false, record ws' { count = insert (alert_key a) (suc n) ws'.count })

  abbrev pub flag : Alert F → Alert F
  flag a = record a { rate_limited = true }

  unfoldable pub limit_loop : Time → ℤ → ℤ → List (Alert F) → Windows → List (Alert F) × Windows
  unfolding limit_step
  limit_loop now window burst [] ws = ([], ws)
  limit_loop now window burst (a ∷ alerts) ws =
      let (over, ws') = limit_step now window burst a ws in
      let (out, ws'') = limit_loop now window burst alerts ws' in
      ((if over then flag a else a) ∷ out, ws'')

  -- (*RateLimiter).Filter on a limiter that is not nil
  unfoldable pub limit_filter :
      {E : Type 0} → RateLimiter → List (Alert F) → World E → List (Alert F) × RateLimiter × World E
  unfolding limit_loop time_now
  limit_filter r alerts w =
      if is_nonpos r.window || is_nonpos r.burst
      then (alerts, r, w)
      else (let (now, w') = time_now w in
          let (out, ws) = limit_loop now r.window r.burst alerts r.windows in
          (out, record r { windows = ws }, w'))
