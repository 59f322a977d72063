-- ===== src/Detection/Ioc/Indicators.antt =====
-- What normalizeIndicators of ioc.go keeps.
use mini_edr.Prelude.{
  Text, text_eq, text_beq_iff, not, ◌&&◌, false, List, [], ◌∷◌, ◌≡◌, ◌≢◌, ◌↔◌, arith, GoMap, has,
  insert, lookup-insert, lookup, All-imp, All, Any, Pairs, is_empty, Bool-cases, inl, inr,
}
use mini_edr.Detection.Ioc.{normalize, normalize_loop, normalize_indicators}

normalize_loop_iff :
    (vals : List Text) (seen : GoMap Text (Unit {0})) (w : Text)
    → Any (λ x. x ≡ w) (normalize_loop vals seen)
      ↔ ((w ≢ []) × (has w seen ≡ false) × Any (λ v. normalize v ≡ w) vals)
unfolding normalize_loop
normalize_loop_iff [] seen w = (λ h. absurd h, λ h. absurd h.2)
normalize_loop_iff (v ∷ vals) seen w = ground (
  arith,
  normalize_loop_iff vals seen w,
  normalize_loop_iff vals (insert (normalize v) tt seen) w,
  lookup-insert (normalize v) w tt seen,
  text_beq_iff (normalize v) w,
)

-- A text is kept exactly if it is not empty and is one of the values, in lower case and without the
-- space around it.
normalize_indicators_iff :
    (vals : List Text) (w : Text)
    → Any (λ x. x ≡ w) (normalize_indicators vals) ↔ ((w ≢ []) × Any (λ v. normalize v ≡ w) vals)
unfolding normalize_indicators lookup
normalize_indicators_iff vals w = ground (arith, normalize_loop_iff vals [] w)

normalize_loop-unseen :
    (vals : List Text) (seen : GoMap Text (Unit {0}))
    → All (λ x. has x seen ≡ false) (normalize_loop vals seen)
unfolding normalize_loop
normalize_loop-unseen [] seen = tt
normalize_loop-unseen (v ∷ vals) seen =
    elim (Bool-cases (not (is_empty (normalize v)) && not (has (normalize v) seen))) [
      | inl fresh ↦ rw fresh (
        ground (arith, fresh),
        All-imp (normalize_loop vals (insert (normalize v) tt seen))
            (λ y unseen. ground (arith, unseen, lookup-insert (normalize v) y tt seen))
            (normalize_loop-unseen vals (insert (normalize v) tt seen)),
      )
      | inr stale ↦ rw stale (normalize_loop-unseen vals seen)
    ]

normalize_loop-IsDistinct :
    (vals : List Text) (seen : GoMap Text (Unit {0}))
    → Pairs (λ x y. x ≢ y) (normalize_loop vals seen)
unfolding normalize_loop
normalize_loop-IsDistinct [] seen = tt
normalize_loop-IsDistinct (v ∷ vals) seen = ground (
  arith,
  normalize_loop-IsDistinct vals seen,
  normalize_loop-IsDistinct vals (insert (normalize v) tt seen),
  normalize_loop-differs (normalize v) vals seen,
)
  where
    normalize_loop-differs :
        (w : Text) (vals : List Text) (seen : GoMap Text (Unit {0}))
        → All (λ y. w ≢ y) (normalize_loop vals (insert w tt seen))
    normalize_loop-differs w vals seen =
        All-imp (normalize_loop vals (insert w tt seen))
          (λ y unseen. ground (arith, unseen, lookup-insert w y tt seen, text_beq_iff w y))
          (normalize_loop-unseen vals (insert w tt seen))

-- No indicator is kept twice.
pub normalize_indicators-IsDistinct :
    (vals : List Text) → Pairs (λ x y. x ≢ y) (normalize_indicators vals)
unfolding normalize_indicators
normalize_indicators-IsDistinct vals = normalize_loop-IsDistinct vals []
