-- ===== src/Response/Policy/Cooldown.antt =====
-- ShouldRespond over a whole history of calls: how far apart the responses for one key are.
use mini_edr.Prelude.{
  ℕ, suc, ◌-◌, ◌≤◌, ℤ, Text, Bool, true, false, List, [], ◌∷◌, some, ◌≡◌, ap, subst, ◌∙◌, ◌⊎◌,
  lookup, lookup-insert, is_nonpos, if◌then◌else◌, text_eq, text_beq_iff, arith, Bool-cases, inl,
  inr, All, All-imp, Pairs,
}
use mini_edr.Capturer.Info.{Time}
use mini_edr.Detection.Types.{Alert, World, time_now, add_duration, alert_key}
use mini_edr.Detection.Dedup.{is_live}
use mini_edr.Response.Policy.{PolicyEngine, init_sets, check_cooldown, decide, should_respond}

-- An alert that was responded to: its key, the clock when the cooldown was looked at, and the clock
-- when it was started anew.
pub record Answer : Type 0 where
  pub key : Text
  pub checked : Time
  pub stamped : Time

-- One call: the alert, and the world that it meets, whose clock does not run backwards within it.
pub record Call (F E : Type 0) : Type 0 where
  pub alert : Alert F
  pub world : World E
  pub forward : world.clock world.reads ≤ world.clock (suc world.reads)

abbrev pub answer : {F E : Type 0} → Alert F → World E → ℕ → Answer
answer a w after = record {
  key = alert_key a;
  checked = w.clock w.reads;
  stamped = w.clock (after - 1);
}

module _ {F E : Type 0} where
  -- The answers when the calls are made one after the other on the same engine.
  unfoldable pub answers : PolicyEngine → List (Call F E) → List Answer
  answers p [] = []
  answers p (c ∷ calls) =
      let (yes', p', w') = should_respond p c.alert c.world in
      let rest = answers p' calls in if yes' then answer c.alert c.world w'.reads ∷ rest else rest

-- The second answer comes at least the cooldown after the first.
abbrev pub Spaced : ℤ → Answer → Answer → Type 0
Spaced cooldown r s = r.key ≡ s.key → add_duration r.stamped cooldown ≤ s.checked

abbrev Respects : PolicyEngine → Answer → Type 0
Respects p r = (until : Time) → lookup r.key p.last ≡ some until → until ≤ r.checked

module _ {E : Type 0} (p : PolicyEngine) (key : Text) (w : World E) where
  -- The map after the cooldown was looked at is no easier to respect.
  check_cooldown-Respects :
      (r : Answer)
      → w.clock w.reads ≤ w.clock (suc w.reads)
      → Respects (check_cooldown p key w).1 r
      → Respects p r
  unfolding check_cooldown time_now is_live
  check_cooldown-Respects r forward h until e = ground (
    arith,
    h until,
    h (add_duration (w.clock w.reads) p.cooldown),
    h (add_duration (w.clock (suc w.reads)) p.cooldown),
    text_beq_iff key r.key,
    lookup-insert key r.key (add_duration (w.clock w.reads) p.cooldown) p.last,
    lookup-insert key r.key (add_duration (w.clock (suc w.reads)) p.cooldown) p.last,
  )

  check_cooldown_expired :
      (until : Time)
      → (check_cooldown p key w).0 ≡ true
      → lookup key p.last ≡ some until
      → until ≤ w.clock w.reads
  unfolding check_cooldown time_now is_live
  check_cooldown_expired until yes' e = ground arith

  check_cooldown_started :
      (check_cooldown p key w).0 ≡ true
      → lookup key (check_cooldown p key w).1.last
        ≡ some (add_duration (w.clock ((check_cooldown p key w).2.reads - 1)) p.cooldown)
  unfolding check_cooldown time_now is_live
  check_cooldown_started yes' = ground (
    arith,
    text_beq_iff key key,
    lookup-insert key key (add_duration (w.clock w.reads) p.cooldown) p.last,
    lookup-insert key key (add_duration (w.clock (suc w.reads)) p.cooldown) p.last,
  )

init_sets-last :
    (p : PolicyEngine) → ((init_sets p).last ≡ p.last) × ((init_sets p).cooldown ≡ p.cooldown)
unfolding init_sets
init_sets-last p = ground arith

module _ {F E : Type 0} (p : PolicyEngine) (a : Alert F) (w : World E) where
  decide-cases :
      is_nonpos p.cooldown ≡ false
      → (((decide p a w).0 ≡ false) × ((decide p a w).1 ≡ p))
        ⊎ (decide p a w ≡ check_cooldown p (alert_key a) w)
  unfolding decide
  decide-cases on = ground arith

  decide-cooldown : (decide p a w).1.cooldown ≡ p.cooldown
  unfolding decide check_cooldown
  decide-cooldown = ground arith

  module _ (on : is_nonpos p.cooldown ≡ false) where
    decide-Respects :
        (r : Answer)
        → w.clock w.reads ≤ w.clock (suc w.reads)
        → Respects (decide p a w).1 r
        → Respects p r
    decide-Respects r forward h = elim (decide-cases on) [
      | inl refused ↦ subst (λ q. Respects q r) refused.1 h
      | inr checked ↦
          check_cooldown-Respects p (alert_key a) w r forward
            (subst (λ (s : Bool × PolicyEngine × World E). Respects s.1 r) checked h)
    ]

    decide_admitted : (decide p a w).0 ≡ true → Respects p (answer a w (decide p a w).2.reads)
    decide_admitted yes' until e = elim (decide-cases on) [
      | inl refused ↦ cc
      | inr checked ↦ check_cooldown_expired p (alert_key a) w until (rw (← checked) yes') e
    ]

    decide_started :
        (decide p a w).0 ≡ true
        → lookup (alert_key a) (decide p a w).1.last
          ≡ some (add_duration (w.clock ((decide p a w).2.reads - 1)) p.cooldown)
    decide_started yes' = elim (decide-cases on) [
      | inl refused ↦ cc
      | inr checked ↦ rw checked (check_cooldown_started p (alert_key a) w (rw (← checked) yes'))
    ]

Respects-Spaced :
    (p : PolicyEngine) (s r : Answer) (cooldown : ℤ)
    → lookup s.key p.last ≡ some (add_duration s.stamped cooldown)
    → Respects p r
    → Spaced cooldown s r
Respects-Spaced p s r cooldown started h e = h (add_duration s.stamped cooldown) (rw (← e) started)

module _ {F E : Type 0} where
  answers-Respects :
      (p : PolicyEngine) (calls : List (Call F E))
      → is_nonpos p.cooldown ≡ false
      → All (Respects p) (answers p calls)
  unfolding answers should_respond
  answers-Respects p [] on = tt
  answers-Respects p (c ∷ calls) on =
      let q = init_sets p in
      let q_on : is_nonpos q.cooldown ≡ false = rw (init_sets-last p).1 on in
      let p' = (decide q c.alert c.world).1 in
      let p'_on : is_nonpos p'.cooldown ≡ false = rw (decide-cooldown q c.alert c.world) q_on in
      let back : (r : Answer) → Respects q r → Respects p r =
        λ r h until e. h until ((ap (lookup r.key) (init_sets-last p).0) ∙ e) in
      let later =
        All-imp (answers p' calls)
          (λ r h. back r (decide-Respects q c.alert c.world q_on r c.forward h))
          (answers-Respects p' calls p'_on) in
      elim (Bool-cases (decide q c.alert c.world).0) [
        | inl yes' ↦ rw yes' (
          back (answer c.alert c.world (decide q c.alert c.world).2.reads)
              (decide_admitted q c.alert c.world q_on yes'),
          later,
        )
        | inr refused ↦ rw refused later
      ]

  -- If the cooldown is positive, then over any history of calls, in each of which the clock does not
  -- run backwards, two alerts with one key that are both responded to are at least the cooldown apart,
  -- from the start of the first cooldown to the check for the second.
  pub answers-Spaced :
      (p : PolicyEngine) (calls : List (Call F E))
      → is_nonpos p.cooldown ≡ false
      → Pairs (Spaced p.cooldown) (answers p calls)
  unfolding answers should_respond
  answers-Spaced p [] on = tt
  answers-Spaced p (c ∷ calls) on =
      let q = init_sets p in
      let q_on : is_nonpos q.cooldown ≡ false = rw (init_sets-last p).1 on in
      let p' = (decide q c.alert c.world).1 in
      let same : p'.cooldown ≡ p.cooldown =
        decide-cooldown q c.alert c.world ∙ (init_sets-last p).1 in
      let p'_on : is_nonpos p'.cooldown ≡ false = rw same on in
      let later =
        subst (λ d. Pairs (Spaced d) (answers p' calls)) same (answers-Spaced p' calls p'_on) in
      elim (Bool-cases (decide q c.alert c.world).0) [
        | inl yes' ↦ rw yes' (
          All-imp (answers p' calls)
              (λ r h.
                subst (λ d. Spaced d (answer c.alert c.world (decide q c.alert c.world).2.reads) r)
                  (init_sets-last p).1
                  (Respects-Spaced p' (answer c.alert c.world (decide q c.alert c.world).2.reads) r
                    q.cooldown (decide_started q c.alert c.world q_on yes') h))
              (answers-Respects p' calls p'_on),
          later,
        )
        | inr refused ↦ rw refused later
      ]
