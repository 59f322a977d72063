-- ===== src/Capturer/Rates/Window.antt =====
-- The sums behind the rates of capturer/net.go and capturer/disk.go, over a run of captures.
use mini_edr.Prelude.Maps.{Keyed}
use mini_edr.Prelude.{
  ℕ, ◌+◌, ◌-◌, ◌%◌, ◌^◌, ◌≤◌, ◌<◌, Text, text_eq, false, List, [], ◌∷◌, none, some, GoMap, has,
  lookup, ◌≡◌, ◌≢◌, refl, ap, eq_self, arith, Option-cases, inl, inr,
}
use mini_edr.Capturer.Rates.Totals.{
  remove, total, total-remove, lookup-remove, lookup-remove_self, remove-Keyed,
}
use mini_edr.Capturer.Rates.{add_rise, add_rises, sum_rises}

add_rise-lt : (p c acc : ℕ) → acc < 2 ^ 64 → add_rise p c acc < 2 ^ 64
unfolding add_rise
add_rise-lt p c acc h = ground arith

add_rise-add : (p c acc x : ℕ) → (add_rise p c acc + x) % 2 ^ 64 ≡ (acc + ((c - p) + x)) % 2 ^ 64
unfolding add_rise
add_rise-add p c acc x = ground arith

module _ {C : Type 0} where
  -- What the counters have risen by, as a number without a bound.
  pub rises : (C → ℕ) → GoMap Text C → GoMap Text C → ℕ
  rises f prev [] = 0
  rises f prev (entry ∷ curr) =
      elim (lookup entry.0 prev) [ none ↦ 0 | some p ↦ f entry.1 - f p ] + rises f prev curr

  rises-remove :
      (f : C → ℕ) (k : Text) (prev curr : GoMap Text C)
      → has k curr ≡ false
      → rises f (remove k prev) curr ≡ rises f prev curr
  unfolding rises lookup
  rises-remove f k prev [] h = refl
  rises-remove f k prev (entry ∷ curr) h =
      let apart : k ≢ entry.0 = λ e. ground (arith, text_eq.same_iff entry.0 k) in
      rw (lookup-remove k entry.0 prev apart)
        (omega (arith, rises-remove f k prev curr (ground (arith, text_eq.same_iff entry.0 k))))

  -- The same counters are there.
  abbrev pub SameNames : GoMap Text C → GoMap Text C → Type 0
  SameNames prev curr = (k : Text) → has k prev ≡ has k curr

  -- No counter falls.
  abbrev pub Grows : (C → ℕ) → GoMap Text C → GoMap Text C → Type 0
  Grows f prev curr =
      (k : Text) (p c : C) → lookup k prev ≡ some p → lookup k curr ≡ some c → f p ≤ f c

  tail-SameNames :
      (k : Text) (c : C) (prev curr : GoMap Text C)
      → Keyed prev
      → has k curr ≡ false
      → SameNames prev ((k, c) ∷ curr)
      → SameNames (remove k prev) curr
  unfolding lookup
  tail-SameNames k c prev curr kp h same j =
      ground
        (arith, text_eq.same_iff k j, lookup-remove k j prev, lookup-remove_self k prev kp, same j)

  tail-Grows :
      (f : C → ℕ) (k : Text) (c : C) (prev curr : GoMap Text C)
      → Keyed prev
      → Grows f prev ((k, c) ∷ curr)
      → Grows f (remove k prev) curr
  unfolding lookup
  tail-Grows f k c prev curr kp grows j p' c' hp hc = ground (
    arith,
    text_eq.same_iff k j,
    lookup-remove k j prev,
    lookup-remove_self k prev kp,
    grows j p' c',
  )

  rises-total :
      (f : C → ℕ) (prev curr : GoMap Text C)
      → Keyed prev
      → Keyed curr
      → SameNames prev curr
      → Grows f prev curr
      → rises f prev curr + total f prev ≡ total f curr
  unfolding rises total lookup
  rises-total f [] [] kp kc same grows = refl
  rises-total f (entry ∷ prev) [] kp kc same grows = cc (same entry.0, eq_self entry.0)
  rises-total f prev ((k, c) ∷ curr) kp kc same grows = elim (Option-cases (lookup k prev)) [
    | inl missing ↦ ground (arith, same k, eq_self k, missing)
    | inr (p, found) ↦
        let le : f p ≤ f c = grows k p c found (rw (eq_self k)) in
        rw found (
          omega (
            arith,
            le,
            total-remove f k p prev found,
            rises-remove f k prev curr kc.0,
            rises-total f (remove k prev) curr (remove-Keyed k prev kp) kc.1
                (tail-SameNames k c prev curr kp kc.0 same) (tail-Grows f k c prev curr kp grows),
          ))
  ]

  pub sum_rises-rises :
      (one other : C → ℕ) (prev curr : GoMap Text C) (r w : ℕ)
      → r < 2 ^ 64
      → w < 2 ^ 64
      → sum_rises one other prev curr (r, w)
        ≡ ((r + rises one prev curr) % 2 ^ 64, (w + rises other prev curr) % 2 ^ 64)
  unfolding sum_rises rises add_rises
  sum_rises-rises one other prev [] r w hr hw = ground arith
  sum_rises-rises one other prev (entry ∷ curr) r w hr hw =
      elim (Option-cases (lookup entry.0 prev)) [
        | inl missing ↦ rw missing (ground (arith, sum_rises-rises one other prev curr r w hr hw))
        | inr (p, found) ↦ rw found (
            ground (
              arith,
              sum_rises-rises one other prev curr (add_rise (one p) (one entry.1) r)
                  (add_rise (other p) (other entry.1) w) (add_rise-lt (one p) (one entry.1) r hr)
                  (add_rise-lt (other p) (other entry.1) w hw),
              add_rise-add (one p) (one entry.1) r (rises one prev curr),
              add_rise-add (other p) (other entry.1) w (rises other prev curr),
            ))
      ]

  -- The two sums of the loop for each table against the one before it, added up
  unfoldable pub summed : (C → ℕ) → (C → ℕ) → GoMap Text C → List (GoMap Text C) → ℕ × ℕ
  summed one other start [] = (0, 0)
  summed one other start (next ∷ later) =
      let first = sum_rises one other start next (0, 0) in
      let rest = summed one other next later in (first.0 + rest.0, first.1 + rest.1)

  -- The table that is read last.
  abbrev pub final : GoMap Text C → List (GoMap Text C) → GoMap Text C
  final start [] = start
  final start (next ∷ later) = final next later

  -- Each table has the counters of the one before, and none of them falls.
  abbrev pub Steady : (C → ℕ) → GoMap Text C → List (GoMap Text C) → Type 0
  Steady f start [] = Unit
  Steady f start (next ∷ later) =
      Keyed next × SameNames start next × Grows f start next × Steady f next later

  summed-one :
      (one other : C → ℕ) (start : GoMap Text C) (later : List (GoMap Text C))
      → Keyed start
      → Steady one start later
      → ((summed one other start later).0 + total one start) % 2 ^ 64
        ≡ total one (final start later) % 2 ^ 64
  unfolding summed
  summed-one one other start [] keyed steady = omega arith
  summed-one one other start (next ∷ later) keyed steady = omega (
    arith,
    summed-one one other next later steady.0 steady.3,
    ap (λ (p : ℕ × ℕ). p.0) (sum_rises-rises one other start next 0 0 (omega arith) (omega arith)),
    rises-total one start next keyed steady.0 steady.1 steady.2,
  )

  summed-other :
      (one other : C → ℕ) (start : GoMap Text C) (later : List (GoMap Text C))
      → Keyed start
      → Steady other start later
      → ((summed one other start later).1 + total other start) % 2 ^ 64
        ≡ total other (final start later) % 2 ^ 64
  unfolding summed
  summed-other one other start [] keyed steady = omega arith
  summed-other one other start (next ∷ later) keyed steady = omega (
    arith,
    summed-other one other next later steady.0 steady.3,
    ap (λ (p : ℕ × ℕ). p.1) (sum_rises-rises one other start next 0 0 (omega arith) (omega arith)),
    rises-total other start next keyed steady.0 steady.1 steady.2,
  )

  -- As long as the counters keep their names and neither of the two kinds falls, the two sums of the
  -- loop, taken for each capture of a run against the one before it and added up, are as uint64 values
  -- the differences of the totals of the two kinds at the end and at the start. The maps may list their
  -- entries in any order.
  pub summed-total :
      (one other : C → ℕ) (start : GoMap Text C) (later : List (GoMap Text C))
      → Keyed start
      → Steady one start later
      → Steady other start later
      → let sums = summed one other start later in
        ((sums.0 + total one start) % 2 ^ 64 ≡ total one (final start later) % 2 ^ 64)
        × ((sums.1 + total other start) % 2 ^ 64 ≡ total other (final start later) % 2 ^ 64)
  summed-total one other start later keyed steady steady' = (
    summed-one one other start later keyed steady,
    summed-other one other start later keyed steady',
  )
