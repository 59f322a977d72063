-- ===== src/Detection/Dedup/Reference.antt =====
-- The loop of AlertDeduper.Filter against a definition that keeps no map.
use mini_edr.Prelude.{
  ◌<◌, ℤ, pos_part, Text, Bool, false, ◌||◌, List, [], ◌∷◌, ◌≡◌, refl, lookup, lookup-insert,
  is_nonpos, if◌then◌else◌, text_eq, arith, ◌==◌, Bool-cases, inl, inr, text_beq_iff,
}
use mini_edr.Capturer.Info.{Time}
use mini_edr.Detection.Types.{Alert, World, add_duration, alert_key}
use mini_edr.Detection.Dedup.{Seen, AlertDeduper, is_live, dedup_step, dedup_loop, dedup_filter}

unfoldable pub member : Text → List Text → Bool
member k [] = false
member k (j ∷ ks) = j == k || member k ks

module _ {F : Type 0} where
  -- The alerts that go out when `before` are the keys that the batch has had so far.
  unfoldable pub first_fresh : Time → Seen → List Text → List (Alert F) → List (Alert F)
  unfolding member
  first_fresh now seen before [] = []
  first_fresh now seen before (a ∷ alerts) =
      let rest = first_fresh now seen (alert_key a ∷ before) alerts in
      if is_live now (lookup (alert_key a) seen) || member (alert_key a) before
      then rest
      else a ∷ rest

-- What the map of the loop says: the entry of a key is live just if it was so at first or if the
-- batch has had the key.
abbrev Tracks : Time → Seen → List Text → Seen → Type 0
Tracks now seen before current =
    (k : Text) → is_live now (lookup k current) ≡ (is_live now (lookup k seen) || member k before)

module _ {F : Type 0} where
  Tracks-dedup_step :
      (now : Time) (window : ℤ) (a : Alert F) (seen : Seen) (before : List Text) (current : Seen)
      → 0 < pos_part window
      → Tracks now seen before current
      → Tracks now seen (alert_key a ∷ before) (dedup_step now window a current).1
  unfolding dedup_step member
  Tracks-dedup_step now window a seen before current h tracks k =
      let key = alert_key a in
      ground (
        arith,
        tracks k,
        tracks key,
        text_beq_iff key k,
        lookup-insert key k (add_duration now window) current,
      )

  dedup_loop-first_fresh :
      (now : Time) (window : ℤ) (alerts : List (Alert F)) (seen : Seen) (before : List Text)
      (current : Seen)
      → 0 < pos_part window
      → Tracks now seen before current
      → (dedup_loop now window alerts current).0 ≡ first_fresh now seen before alerts
  unfolding dedup_loop first_fresh
  dedup_loop-first_fresh now window [] seen before current h tracks = refl
  dedup_loop-first_fresh now window (a ∷ alerts) seen before current h tracks =
      let step = dedup_step now window a current in
      ground (
        arith,
        tracks (alert_key a),
        dedup_loop-first_fresh now window alerts seen (alert_key a ∷ before) step.1 h
            (Tracks-dedup_step now window a seen before current h tracks),
      )

  -- Filter passes on exactly the alerts of the reference definition, at the reading of the clock that
  -- the call makes, and every alert if the window is not positive.
  pub dedup_filter-first_fresh :
      {E : Type 0} (d : AlertDeduper) (alerts : List (Alert F)) (w : World E)
      → (dedup_filter d alerts w).0
        ≡ (if is_nonpos d.window then alerts else first_fresh (w.clock w.reads) d.seen [] alerts)
  unfolding dedup_filter member
  dedup_filter-first_fresh d alerts w = elim (Bool-cases (is_nonpos d.window)) [
    | inl off ↦ rw off
    | inr on ↦ rw on (
        dedup_loop-first_fresh (w.clock w.reads) d.window alerts d.seen [] d.seen (ground arith)
          (λ k. ground arith))
  ]
