-- ===== src/Detection/RateLimit/Bounds.antt =====
-- RateLimiter.Filter over a whole history of calls: how many alerts of one key pass unflagged.
use mini_edr.Prelude.{
  ℕ, suc, ◌+◌, ◌*◌, ◌≤◌, ◌-◌, ℤ, pos_part, Text, false, not, ◌||◌, ◌&&◌, List, [], ◌∷◌, ◌++◌, none,
  some, ◌≡◌, lookup, lookup-insert, is_nonpos, ltb, if◌then◌else◌, text_eq, arith, ◌==◌,
  text_beq_iff, All,
}
use mini_edr.Capturer.Info.{Time}
use mini_edr.Detection.Types.{Alert, World, add_duration, alert_key}
use mini_edr.Detection.RateLimit.{
  Windows, RateLimiter, count_or_zero, roll, limit_step, limit_loop, limit_filter,
}

-- One call of Filter: its alerts, and the world that it meets.
pub record Call (F E : Type 0) : Type 0 where
  pub alerts : List (Alert F)
  pub world : World E

abbrev pub now : {F E : Type 0} → Call F E → Time
now c = c.world.clock c.world.reads

module _ {F : Type 0} where
  -- The alerts of a key that go on to the responders.
  unfoldable pub passed : Text → List (Alert F) → ℕ
  passed k [] = 0
  passed k (a ∷ alerts) =
      (if alert_key a == k && not a.rate_limited then 1 else 0) + passed k alerts

-- How many alerts of the key may still pass before the time `limit`: those that are left in a window
-- which is open until then, or else those and a whole window.
unfoldable pub budget : Time → ℕ → Text → Windows → ℕ
budget limit burst k ws = elim (lookup k ws.reset) [
  | none ↦ burst + burst
  | some reset_at ↦
      (burst - count_or_zero (lookup k ws.count)) + (if ltb reset_at limit then burst else 0)
]

module _ {F : Type 0} where
  limit_step-budget :
      (start t : Time) (window burst : ℤ) (a : Alert F) (ws : Windows) (k : Text)
      → start ≤ t
      → t ≤ start + pos_part window
      → (if alert_key a == k && not (limit_step t window burst a ws).0 then 1 else 0)
          + budget (start + pos_part window) (pos_part burst) k (limit_step t window burst a ws).1
        ≤ budget (start + pos_part window) (pos_part burst) k ws
  unfolding budget limit_step
  limit_step-budget start t window burst a ws k h h' =
      let key = alert_key a in
      let n = count_or_zero (lookup key (roll t window key ws).count) in
      ground (
        arith,
        text_beq_iff key k,
        text_beq_iff key key,
        lookup-insert key k (add_duration t window) ws.reset,
        lookup-insert key k 0 ws.count,
        lookup-insert key key 0 ws.count,
        lookup-insert key k (suc n) (roll t window key ws).count,
      )

  limit_loop-budget :
      (start t : Time) (window burst : ℤ) (alerts : List (Alert F)) (ws : Windows) (k : Text)
      → start ≤ t
      → t ≤ start + pos_part window
      → passed k (limit_loop t window burst alerts ws).0
          + budget
              (start + pos_part window)
              (pos_part burst)
              k
              (limit_loop t window burst alerts ws).1
        ≤ budget (start + pos_part window) (pos_part burst) k ws
  unfolding limit_loop passed alert_key
  limit_loop-budget start t window burst [] ws k h h' = omega arith
  limit_loop-budget start t window burst (a ∷ alerts) ws k h h' =
      let step = limit_step t window burst a ws in
      ground (
        arith,
        limit_step-budget start t window burst a ws k h h',
        limit_loop-budget start t window burst alerts step.1 k h h',
      )

  passed-append :
      (k : Text) (xs ys : List (Alert F)) → passed k (xs ++ ys) ≡ passed k xs + passed k ys
  unfolding passed
  passed-append k [] ys = omega arith
  passed-append k (x ∷ xs) ys = omega (arith, passed-append k xs ys)

budget-le :
    (limit : Time) (burst : ℕ) (k : Text) (ws : Windows) → budget limit burst k ws ≤ 2 * burst
unfolding budget
budget-le limit burst k ws = ground arith

module _ {F E : Type 0} where
  -- What Filter gives when the calls are made one after the other on the same limiter.
  unfoldable pub outputs : RateLimiter → List (Call F E) → List (Alert F)
  outputs r [] = []
  outputs r (c ∷ calls) =
      let (out, r', _) = limit_filter r c.alerts c.world in out ++ outputs r' calls

  -- Every call reads the clock within one window from `start` on.
  abbrev pub Within : Time → ℤ → Call F E → Type 0
  Within start window c = (start ≤ now c) × (now c ≤ start + pos_part window)

  outputs-budget :
      (r : RateLimiter) (calls : List (Call F E)) (start : Time) (k : Text)
      → is_nonpos r.window || is_nonpos r.burst ≡ false
      → All (Within start r.window) calls
      → passed k (outputs r calls)
        ≤ budget (start + pos_part r.window) (pos_part r.burst) k r.windows
  unfolding outputs limit_filter passed
  outputs-budget r [] start k on within = omega arith
  outputs-budget r (c ∷ calls) start k on within =
      let run = limit_loop (now c) r.window r.burst c.alerts r.windows in
      let r' : RateLimiter = record r { windows = run.1 } in
      rw on (
        omega (
          arith,
          passed-append k run.0 (outputs r' calls),
          limit_loop-budget start (now c) r.window r.burst c.alerts r.windows k within.0.0
              within.0.1,
          outputs-budget r' calls start k on within.1,
        ))

  -- If window and burst are positive, then in calls made within one window of time, at most twice the
  -- burst of alerts of one key come out unflagged, whatever the limiter had seen before.
  pub outputs-le-two_bursts :
      (r : RateLimiter) (calls : List (Call F E)) (start : Time) (k : Text)
      → is_nonpos r.window || is_nonpos r.burst ≡ false
      → All (Within start r.window) calls
      → passed k (outputs r calls) ≤ 2 * pos_part r.burst
  outputs-le-two_bursts r calls start k on within = omega (
    arith,
    outputs-budget r calls start k on within,
    budget-le (start + pos_part r.window) (pos_part r.burst) k r.windows,
  )

  -- If the window of the key was opened at `start`, at most the burst come out unflagged before it
  -- ends, less those that it has had.
  outputs-le-rest_of_burst :
      (r : RateLimiter) (calls : List (Call F E)) (start : Time) (k : Text)
      → is_nonpos r.window || is_nonpos r.burst ≡ false
      → lookup k r.windows.reset ≡ some (add_duration start r.window)
      → All (Within start r.window) calls
      → passed k (outputs r calls) ≤ pos_part r.burst - count_or_zero (lookup k r.windows.count)
  unfolding budget
  outputs-le-rest_of_burst r calls start k on opened within =
      ground (arith, outputs-budget r calls start k on within)
