-- ===== src/Agent/Queue/Drained.antt =====
-- How the queue of agent/agent.go ends: what pipelineLoop can still process, and what it leaves.
use mini_edr.Prelude.{
  tally, tally_one, ℕ, Bool, true, false, List, [], ◌∷◌, ◌++◌, append_assoc, append_nil, none,
  Option-cases, Bool-cases, ltb, length, inl, inr, ◌≡◌, refl, sym, ap, ◌∙◌, arith, Float64,
}
use mini_edr.Prelude.World.{World}
use mini_edr.Agent.{CollectAgent}
use mini_edr.Agent.Queue.{
  QueueItem, System, Step, offered, handled_inline, taken, handled, cancelled, left, Steps, start,
  later, init, enqueue, overflow, offer, receive, handle,
}
use mini_edr.Agent.Queue.Conserved.{queue-conserved}

module _ {F E : Type 0} ⦃fl : Float64 F⦄ where
  Steps-trans : (n : ℕ) (s t u : System F E) → Steps n s t → Steps n t u → Steps n s u
  Steps-trans n s t _ front start = front
  Steps-trans n s t u front (later {t = v} back step) = later (Steps-trans n s t v front back) step

  -- Without another capture, the items underway can all be processed.
  abbrev CanClear : ℕ → System F E → Type 0
  CanClear n s =
      (t : System F E) × Steps n s t
      × (t.captured ≡ s.captured)
      × (t.queue ≡ [])
      × (t.received ≡ none)
      × (t.inline ≡ [])

  before-CanClear :
      (n : ℕ) (s t : System F E)
      → Step n s t
      → t.captured ≡ s.captured
      → CanClear n t
      → CanClear n s
  before-CanClear n s t step same (u, steps, kept, queue, free, quiet) =
      (u, Steps-trans n s t u (later start step) steps, kept ∙ same, queue, free, quiet)

  clear_queue :
      (n : ℕ) (items : List (QueueItem F)) (s : System F E)
      → s.queue ≡ items
      → s.is_looping ≡ true
      → s.received ≡ none
      → s.inline ≡ []
      → CanClear n s
  unfolding handle receive
  clear_queue n [] s queue looping free quiet = (s, start, refl, queue, free, quiet)
  clear_queue n (item ∷ items) s queue looping free quiet =
      before-CanClear n s (receive item items s) (taken item items looping free queue) refl (
        before-CanClear n (receive item items s) _ (handled item refl) refl
          (clear_queue n items _ refl looping refl quiet))

  clear_inline :
      (n : ℕ) (items : List (QueueItem F)) (s : System F E)
      → s.inline ≡ items
      → s.is_looping ≡ true
      → s.received ≡ none
      → CanClear n s
  unfolding handle
  clear_inline n [] s inline looping free = clear_queue n s.queue s refl looping free inline
  clear_inline n (item ∷ items) s inline looping free =
      before-CanClear n s _ (handled_inline item [] items inline) refl
        (clear_inline n items _ refl looping free)

  clear : (n : ℕ) (s : System F E) → s.is_looping ≡ true → CanClear n s
  unfolding handle
  clear n s looping = elim (Option-cases s.received) [
    | inl free ↦ clear_inline n s.inline s refl looping free
    | inr (item, e) ↦
        before-CanClear n s _ (handled item e) refl (clear_inline n s.inline _ refl looping refl)
  ]

  -- As long as pipelineLoop runs, there is no deadlock: from every state that an interleaving leads to,
  -- some steps without another capture process everything captured, and empty the queue.
  pub queue-drained :
      (n : ℕ) (a : CollectAgent F E) (w : World E) (s : System F E) (p : QueueItem F → Bool)
      → Steps n (init a w) s
      → s.is_looping ≡ true
      → (t : System F E) × Steps n s t
        × (t.queue ≡ [])
        × (t.captured ≡ s.captured)
        × (tally p t.processed ≡ tally p s.captured)
  unfolding tally tally_one
  queue-drained n a w s p steps looping =
      let (t, more, kept, queue, free, quiet) = clear n s looping in
      let balance = (queue-conserved n a w t p (Steps-trans n (init a w) s t steps more)).1 in
      (t, more, queue, kept, ground (arith, balance, kept, queue, free, quiet))

  -- Nothing takes from the queue any more.
  abbrev HasLeft : System F E → System F E → Type 0
  HasLeft s t =
      (t.is_looping ≡ false)
      × (t.received ≡ none)
      × ((more : List (QueueItem F)) × (t.queue ≡ s.queue ++ more))

  offer-HasLeft :
      (n : ℕ) (item : QueueItem F) (s t : System F E) → HasLeft s t → HasLeft s (offer n item t)
  unfolding offer enqueue overflow
  offer-HasLeft n item s t (out, free, (more, e)) = elim (Bool-cases (ltb (length t.queue) n)) [
    | inl room ↦ rw room (
      out,
      free,
      (more ++ item ∷ [], ap (λ q. q ++ item ∷ []) e ∙ append_assoc s.queue more (item ∷ [])),
    )
    | inr full ↦ rw full (out, free, (more, e))
  ]

  Step-HasLeft : (n : ℕ) (s t u : System F E) → Step n t u → HasLeft s t → HasLeft s u
  unfolding receive handle
  Step-HasLeft n s t _ (offered item) h = offer-HasLeft n item s t h
  Step-HasLeft n s t _ (handled_inline item before after e) h = h
  Step-HasLeft n s t _ (taken item rest looping free e) h = ground (arith, looping, h.0)
  Step-HasLeft n s t _ (handled item e) h = ground (arith, e, h.1)
  Step-HasLeft n s t _ cancelled h = h
  Step-HasLeft n s t _ (left looping over free) h = ground (arith, looping, h.0)

  -- Once pipelineLoop has left, what is queued stays queued: whatever happens later, the queue begins
  -- with the same items.
  pub queue-HasLeft :
      (n : ℕ) (s t : System F E)
      → Steps n s t
      → s.is_looping ≡ false
      → s.received ≡ none
      → (more : List (QueueItem F)) × (t.queue ≡ s.queue ++ more)
  queue-HasLeft n s t steps out free = (go t steps).2
    where
      go : (u : System F E) → Steps n s u → HasLeft s u
      go _ start = (out, free, ([], sym (append_nil s.queue)))
      go u (later {t = v} front step) = Step-HasLeft n s v u step (go v front)
