-- ===== src/Detection/Dedup/Spacing.antt =====
-- AlertDeduper.Filter over a whole history of calls: how far apart the alerts of one key are.
use mini_edr.Prelude.{
  ◌≤◌, ℤ, Text, true, false, List, [], ◌∷◌, ◌++◌, map, some, ◌≡◌, lookup, lookup-insert, is_nonpos,
  text_eq, arith, Bool-cases, inl, inr, text_beq_iff, All, All-append, All-imp, Pairs, Pairs-append,
}
use mini_edr.Capturer.Info.{Time}
use mini_edr.Detection.Types.{Alert, World, add_duration, alert_key}
use mini_edr.Detection.Dedup.{Seen, AlertDeduper, dedup_step, dedup_loop, dedup_filter}

-- An alert that went out: its key, and the time of the call.
pub record Release : Type 0 where
  pub key : Text
  pub at : Time

-- One call of Filter: its alerts, and the world that it meets. Nothing is said of how the worlds of
-- two calls are related.
pub record Call (F E : Type 0) : Type 0 where
  pub alerts : List (Alert F)
  pub world : World E

abbrev pub now : {F E : Type 0} → Call F E → Time
now c = c.world.clock c.world.reads

abbrev released : {F : Type 0} → Time → List (Alert F) → List Release
released t alerts = map (λ a. record { key = alert_key a; at = t }) alerts

module _ {F E : Type 0} where
  -- What goes out when the calls are made one after the other on the same deduper.
  unfoldable pub releases : AlertDeduper → List (Call F E) → List Release
  releases d [] = []
  releases d (c ∷ calls) =
      let (out, d', _) = dedup_filter d c.alerts c.world in
      released (now c) out ++ releases d' calls

-- Two releases of one key are at least the window apart.
abbrev pub Spaced : ℤ → Release → Release → Type 0
Spaced window r s = r.key ≡ s.key → add_duration r.at window ≤ s.at

-- A release respects a map if it does not come before the expiry of its key.
abbrev Respects : Seen → Release → Type 0
Respects seen r = (exp : Time) → lookup r.key seen ≡ some exp → exp ≤ r.at

module _ {F : Type 0} (t : Time) (window : ℤ) where
  -- A map that a round of the loop leaves is no easier to respect than the one before.
  Respects-dedup_step :
      (a : Alert F) (seen : Seen) (r : Release)
      → Respects (dedup_step t window a seen).1 r
      → Respects seen r
  unfolding dedup_step
  Respects-dedup_step a seen r h exp e =
      let key = alert_key a in
      ground (
        arith,
        h exp,
        h (add_duration t window),
        text_beq_iff key r.key,
        lookup-insert key r.key (add_duration t window) seen,
      )

  Respects-dedup_loop :
      (alerts : List (Alert F)) (seen : Seen) (r : Release)
      → Respects (dedup_loop t window alerts seen).1 r
      → Respects seen r
  unfolding dedup_loop
  Respects-dedup_loop [] seen r h = h
  Respects-dedup_loop (a ∷ alerts) seen r h =
      Respects-dedup_step a seen r (Respects-dedup_loop alerts (dedup_step t window a seen).1 r h)

  -- An alert goes out only once its entry has expired, and then the map holds its new expiry.
  dedup_step_released :
      (a : Alert F) (seen : Seen)
      → (dedup_step t window a seen).0 ≡ true
      → Respects seen (record { key = alert_key a; at = t })
        × (lookup (alert_key a) (dedup_step t window a seen).1 ≡ some (add_duration t window))
  unfolding dedup_step
  dedup_step_released a seen h = (
    λ exp e. ground arith,
    ground (
      arith,
      text_beq_iff (alert_key a) (alert_key a),
      lookup-insert (alert_key a) (alert_key a) (add_duration t window) seen,
    ),
  )

  Respects-head :
      (a : Alert F) (seen : Seen) (r : Release)
      → (dedup_step t window a seen).0 ≡ true
      → Respects (dedup_step t window a seen).1 r
      → Spaced window (record { key = alert_key a; at = t }) r
  Respects-head a seen r released h e =
      h (add_duration t window) (rw (← e) (dedup_step_released a seen released).1)

  dedup_loop-Respects :
      (alerts : List (Alert F)) (seen : Seen)
      → All (Respects seen) (released t (dedup_loop t window alerts seen).0)
  unfolding dedup_loop
  dedup_loop-Respects [] seen = tt
  dedup_loop-Respects (a ∷ alerts) seen =
      let later =
        All-imp (released t (dedup_loop t window alerts (dedup_step t window a seen).1).0)
          (Respects-dedup_step a seen)
          (dedup_loop-Respects alerts (dedup_step t window a seen).1) in
      elim (Bool-cases (dedup_step t window a seen).0) [
        | inl out ↦ rw out ((dedup_step_released a seen out).0, later)
        | inr kept ↦ rw kept later
      ]

  dedup_loop-Pairs :
      (alerts : List (Alert F)) (seen : Seen)
      → Pairs (Spaced window) (released t (dedup_loop t window alerts seen).0)
  unfolding dedup_loop
  dedup_loop-Pairs [] seen = tt
  dedup_loop-Pairs (a ∷ alerts) seen =
      let seen' = (dedup_step t window a seen).1 in
      let rest = released t (dedup_loop t window alerts seen').0 in
      let later = dedup_loop-Pairs alerts seen' in
      elim (Bool-cases (dedup_step t window a seen).0) [
        | inl out ↦ rw out (
          All-imp rest (λ r. Respects-head a seen r out) (dedup_loop-Respects alerts seen'),
          later,
        )
        | inr kept ↦ rw kept later
      ]

  -- What respects the map that the loop leaves is spaced from all that the loop let out.
  dedup_loop-Spaced :
      (alerts : List (Alert F)) (seen : Seen) (r : Release)
      → Respects (dedup_loop t window alerts seen).1 r
      → All (λ s. Spaced window s r) (released t (dedup_loop t window alerts seen).0)
  unfolding dedup_loop
  dedup_loop-Spaced [] seen r h = tt
  dedup_loop-Spaced (a ∷ alerts) seen r h =
      let seen' = (dedup_step t window a seen).1 in
      let later = dedup_loop-Spaced alerts seen' r h in
      elim (Bool-cases (dedup_step t window a seen).0) [
        | inl out ↦
            rw out (Respects-head a seen r out (Respects-dedup_loop alerts seen' r h), later)
        | inr kept ↦ rw kept later
      ]

-- `All` over one list of a relation to every element of another, the other way round.
All-swap {ℓ κ μ} :
    {A : Type ℓ} {B : Type κ} (R : A → B → Type μ) (xs : List A) (ys : List B)
    → All (λ y. All (λ x. R x y) xs) ys
    → All (λ x. All (λ y. R x y) ys) xs
All-swap R [] ys h = tt
All-swap R (x ∷ xs) ys h =
    (All-imp ys (λ y both. both.0) h, All-swap R xs ys (All-imp ys (λ y both. both.1) h))

module _ {F E : Type 0} where
  releases-Respects :
      (d : AlertDeduper) (calls : List (Call F E))
      → is_nonpos d.window ≡ false
      → All (Respects d.seen) (releases d calls)
  unfolding releases dedup_filter
  releases-Respects d [] on = tt
  releases-Respects d (c ∷ calls) on =
      let run = dedup_loop (now c) d.window c.alerts d.seen in
      let d' : AlertDeduper = record d { seen = run.1 } in
      rw on (
        All-append (Respects d.seen) (released (now c) run.0) (releases d' calls)
          (dedup_loop-Respects (now c) d.window c.alerts d.seen)
          (All-imp (releases d' calls) (Respects-dedup_loop (now c) d.window c.alerts d.seen)
            (releases-Respects d' calls on)))

  -- If the window is positive, then over any history of calls, whatever the clock does between them,
  -- two alerts with one key that both go out are at least the window apart, in the order of the calls
  -- and within a call.
  pub releases-Spaced :
      (d : AlertDeduper) (calls : List (Call F E))
      → is_nonpos d.window ≡ false
      → Pairs (Spaced d.window) (releases d calls)
  unfolding releases dedup_filter
  releases-Spaced d [] on = tt
  releases-Spaced d (c ∷ calls) on =
      let run = dedup_loop (now c) d.window c.alerts d.seen in
      let d' : AlertDeduper = record d { seen = run.1 } in
      rw on (
        Pairs-append (Spaced d.window) (released (now c) run.0) (releases d' calls)
          (dedup_loop-Pairs (now c) d.window c.alerts d.seen)
          (All-swap (Spaced d.window) (released (now c) run.0) (releases d' calls) (
            All-imp (releases d' calls) (dedup_loop-Spaced (now c) d.window c.alerts d.seen)
              (releases-Respects d' calls on)))
          (releases-Spaced d' calls on))
