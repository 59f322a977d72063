-- ===== src/Detection/RateLimit/Reference.antt =====
-- The loop of RateLimiter.Filter against a definition that keeps no maps.
use mini_edr.Prelude.{
  ℕ, suc, ◌+◌, ◌<◌, ◌≤◌, ℤ, pos_part, Text, ◌||◌, List, [], ◌∷◌, ◌≡◌, refl, lookup, lookup-insert,
  is_nonpos, leb, if◌then◌else◌, text_eq, arith, ◌==◌, Bool-cases, inl, inr, text_beq_iff,
}
use mini_edr.Capturer.Info.{Time}
use mini_edr.Detection.Types.{Alert, World, add_duration, alert_key}
use mini_edr.Detection.RateLimit.{
  Windows, RateLimiter, count_or_zero, has_expired, roll, limit_step, flag, limit_loop,
  limit_filter,
}

-- How often a key stands in a list.
unfoldable pub occurrences : Text → List Text → ℕ
occurrences k [] = 0
occurrences k (j ∷ ks) = (if j == k then 1 else 0) + occurrences k ks

-- The alerts of a key that its window has had, none if the window has expired.
unfoldable pub used : Time → Text → Windows → ℕ
unfolding has_expired
used now k ws = if has_expired now (lookup k ws.reset) then 0 else count_or_zero (lookup k ws.count)

module _ {F : Type 0} where
  unfoldable pub flag_beyond : Time → ℕ → Windows → List Text → List (Alert F) → List (Alert F)
  unfolding used occurrences
  flag_beyond now burst ws before [] = []
  flag_beyond now burst ws before (a ∷ alerts) =
      (if leb burst (used now (alert_key a) ws + occurrences (alert_key a) before)
        then flag a
        else a)
      ∷ flag_beyond now burst ws (alert_key a ∷ before) alerts

-- Below the burst the maps of the loop count exactly, and from the burst on they stay there.
record Counts (now : Time) (burst : ℕ) (ws : Windows) (before : List Text) (current : Windows)
    (k : Text) : Type 0 where
  below :
      used now k ws + occurrences k before < burst
      → used now k current ≡ used now k ws + occurrences k before
  above : burst ≤ used now k ws + occurrences k before → burst ≤ used now k current

module _ {F : Type 0} where
  used-limit_step :
      (now : Time) (window burst : ℤ) (a : Alert F) (ws : Windows) (k : Text)
      → used now k (limit_step now window burst a ws).1 ≡ (
          if alert_key a == k
          then (if leb (pos_part burst) (used now k ws) then used now k ws else suc (used now k ws))
          else used now k ws)
  unfolding used limit_step
  used-limit_step now window burst a ws k =
      let key = alert_key a in
      let n = count_or_zero (lookup key (roll now window key ws).count) in
      ground (
        arith,
        text_beq_iff key k,
        text_beq_iff key key,
        lookup-insert key k (add_duration now window) ws.reset,
        lookup-insert key k 0 ws.count,
        lookup-insert key key 0 ws.count,
        lookup-insert key k (suc n) (roll now window key ws).count,
      )

  limit_step-used :
      (now : Time) (window burst : ℤ) (a : Alert F) (ws : Windows)
      → (limit_step now window burst a ws).0 ≡ leb (pos_part burst) (used now (alert_key a) ws)
  unfolding used limit_step
  limit_step-used now window burst a ws =
      let key = alert_key a in
      ground (arith, text_beq_iff key key, lookup-insert key key 0 ws.count)

  Counts-limit_step :
      (now : Time) (window burst : ℤ) (a : Alert F) (ws current : Windows) (before : List Text)
      → ((k : Text) → Counts now (pos_part burst) ws before current k)
      → (k : Text)
      → Counts now
          (pos_part burst)
          ws
          (alert_key a ∷ before)
          (limit_step now window burst a current).1
          k
  unfolding occurrences
  Counts-limit_step now window burst a ws current before counts k = record {
    below = λ h. ground (
      arith,
      counts k,
      text_beq_iff (alert_key a) k,
      used-limit_step now window burst a current k,
    );
    above = λ h. ground (
      arith,
      counts k,
      text_beq_iff (alert_key a) k,
      used-limit_step now window burst a current k,
    );
  }

  limit_loop-flag_beyond :
      (now : Time) (window burst : ℤ) (alerts : List (Alert F)) (ws current : Windows)
      (before : List Text)
      → ((k : Text) → Counts now (pos_part burst) ws before current k)
      → (limit_loop now window burst alerts current).0
        ≡ flag_beyond now (pos_part burst) ws before alerts
  unfolding limit_loop flag_beyond
  limit_loop-flag_beyond now window burst [] ws current before counts = refl
  limit_loop-flag_beyond now window burst (a ∷ alerts) ws current before counts =
      let rest =
        limit_loop-flag_beyond now window burst alerts ws (limit_step now window burst a current).1
          (alert_key a ∷ before) (Counts-limit_step now window burst a ws current before counts) in
      ground (arith, rest, limit_step-used now window burst a current, counts (alert_key a))

  -- Filter keeps every alert in its place, and flags one exactly if its window has had `burst` alerts
  -- of the key before it; with a window or a burst that is not positive it changes nothing.
  pub limit_filter-flag_beyond :
      {E : Type 0} (r : RateLimiter) (alerts : List (Alert F)) (w : World E)
      → (limit_filter r alerts w).0 ≡ (
          if is_nonpos r.window || is_nonpos r.burst
          then alerts
          else flag_beyond (w.clock w.reads) (pos_part r.burst) r.windows [] alerts)
  unfolding limit_filter occurrences
  limit_filter-flag_beyond r alerts w =
      elim (Bool-cases (is_nonpos r.window || is_nonpos r.burst)) [
        | inl off ↦ rw off
        | inr on ↦ rw on (
            limit_loop-flag_beyond (w.clock w.reads) r.window r.burst alerts r.windows r.windows []
              (λ k. record { below = λ h. omega arith; above = λ h. omega arith }))
      ]
