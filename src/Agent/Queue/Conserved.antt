-- ===== src/Agent/Queue/Conserved.antt =====
-- What holds of the queue of agent/agent.go after any interleaving.
use mini_edr.Prelude.{
  tally, tally_one, tally-snoc, tally-middle, ℕ, ◌+◌, ◌*◌, ◌≤◌, Text, Bool, [], ◌∷◌, ◌++◌, some,
  length, length-append, ◌≡◌, refl, arith, Float64, ltb, Bool-cases, inl, inr,
}
use mini_edr.Prelude.World.{World}
use mini_edr.Agent.{CollectAgent, print}
use mini_edr.Agent.Accounts.{consumed, sinks_named, process_info-consumed, process_info-kept}
use mini_edr.Agent.Queue.{
  QueueItem, System, Step, offered, handled_inline, taken, handled, cancelled, left, Steps, start,
  later, init, enqueue, overflow, offer, increment_drop, receive, handle,
}

one_more : (k m : ℕ) → (k + 1) * m ≡ k * m + m
one_more k m = ground arith

module _ {F E : Type 0} where
  -- The items that are somewhere on their way, by a test.
  abbrev pub underway : (QueueItem F → Bool) → System F E → ℕ
  underway p s = tally p s.queue + tally_one p s.received + tally p s.inline

  -- What every interleaving keeps, for an agent that begins with these sinks and statistics.
  pub record Inv (n : ℕ) (a : CollectAgent F E) (s : System F E) : Type 0 where
    pub bounded : length s.queue ≤ n
    pub kept : (p : QueueItem F → Bool) → tally p s.captured ≡ tally p s.processed + underway p s
    pub sinks : s.agent.sinks ≡ a.sinks
    pub counted :
        (name : Text)
        → consumed name s.agent ≡ consumed name a + length s.processed * sinks_named name a.sinks

module _ {F E : Type 0} ⦃fl : Float64 F⦄ where
  init-Inv : (n : ℕ) (a : CollectAgent F E) (w : World E) → Inv n a (init a w)
  unfolding tally tally_one
  init-Inv n a w = record {
    bounded = omega arith;
    kept = λ p. refl;
    sinks = refl;
    counted = λ name. omega arith;
  }

  -- What processInfo of an item does to the agent and the items processed.
  handle-kept :
      (item : QueueItem F) (s : System F E)
      → ((handle item s).agent.sinks ≡ s.agent.sinks)
        × ((name : Text)
            → consumed name (handle item s).agent
              ≡ consumed name s.agent + sinks_named name s.agent.sinks)
  unfolding handle
  handle-kept item s = (
    (process_info-kept item.name item.info s.agent s.world).0,
    process_info-consumed item.name item.info s.agent s.world,
  )

  -- One more item processed that has been underway keeps the invariant.
  handle-Inv :
      (n : ℕ) (a : CollectAgent F E) (item : QueueItem F) (s t : System F E)
      → Inv n a s
      → t.agent ≡ (handle item s).agent
      → t.queue ≡ s.queue
      → t.captured ≡ s.captured
      → t.processed ≡ s.processed ++ item ∷ []
      → ((p : QueueItem F → Bool) → underway p s ≡ underway p t + tally_one p (some item))
      → Inv n a t
  handle-Inv n a item s t inv agent queue captured processed fewer = record {
    bounded = ground (arith, inv.bounded, queue);
    kept = λ p.
        ground (arith, inv.kept p, fewer p, captured, processed, tally-snoc p s.processed item);
    sinks = ground (arith, inv.sinks, agent, handle-kept item s);
    counted = λ name. ground (
      arith,
      inv.counted name,
      agent,
      processed,
      inv.sinks,
      (handle-kept item s).1 name,
      length-append s.processed (item ∷ []),
      one_more (length s.processed) (sinks_named name a.sinks),
    );
  }

  offer-Inv :
      (n : ℕ) (a : CollectAgent F E) (item : QueueItem F) (s : System F E)
      → Inv n a s
      → Inv n a (offer n item s)
  unfolding offer enqueue overflow increment_drop print
  offer-Inv n a item s inv = elim (Bool-cases (ltb (length s.queue) n)) [
    | inl room ↦ rw room (record {
      bounded = ground (arith, room, length-append s.queue (item ∷ []));
      kept =
          λ p. ground (arith, inv.kept p, tally-snoc p s.queue item, tally-snoc p s.captured item);
      sinks = inv.sinks;
      counted = inv.counted;
    })
    | inr full ↦ rw full (record {
      bounded = inv.bounded;
      kept =
          λ p. ground (arith, inv.kept p, tally-snoc p s.inline item, tally-snoc p s.captured item);
      sinks = inv.sinks;
      counted = inv.counted;
    })
  ]

  Step-Inv : (n : ℕ) (a : CollectAgent F E) (s t : System F E) → Step n s t → Inv n a s → Inv n a t
  unfolding receive handle tally tally_one
  Step-Inv n a s _ (offered item) inv = offer-Inv n a item s inv
  Step-Inv n a s _ (handled_inline item before after e) inv =
      handle-Inv n a item s _ inv refl refl refl refl
        (λ p. ground (arith, e, tally-middle p before after item))
  Step-Inv n a s _ (taken item rest looping free e) inv = record {
    bounded = ground (arith, inv.bounded, e);
    kept = λ p. ground (arith, inv.kept p, e, free);
    sinks = inv.sinks;
    counted = inv.counted;
  }
  Step-Inv n a s _ (handled item e) inv =
      handle-Inv n a item s _ inv refl refl refl refl (λ p. ground (arith, e))
  Step-Inv n a s _ cancelled inv = record {
    bounded = inv.bounded;
    kept = inv.kept;
    sinks = inv.sinks;
    counted = inv.counted;
  }
  Step-Inv n a s _ (left looping over free) inv = record {
    bounded = inv.bounded;
    kept = inv.kept;
    sinks = inv.sinks;
    counted = inv.counted;
  }

  Steps-Inv :
      (n : ℕ) (a : CollectAgent F E) (s t : System F E) → Steps n s t → Inv n a s → Inv n a t
  Steps-Inv n a s _ start inv = inv
  Steps-Inv n a s u (later {t} steps step) inv = Step-Inv n a t u step (Steps-Inv n a s t steps inv)

  -- Whatever the interleaving of captures, pipelineLoop and cancellation, the queue stays within its
  -- capacity, and no item is lost or processed twice: by any test, as many items have been captured as
  -- have been processed, are queued, are with pipelineLoop, or are about to be processed inline.
  pub queue-conserved :
      (n : ℕ) (a : CollectAgent F E) (w : World E) (s : System F E) (p : QueueItem F → Bool)
      → Steps n (init a w) s
      → (length s.queue ≤ n) × (tally p s.captured ≡ tally p s.processed + underway p s)
  queue-conserved n a w s p steps =
      let inv = Steps-Inv n a (init a w) s steps (init-Inv n a w) in (inv.bounded, inv.kept p)

  -- Whatever the interleaving, the statistics of the sinks are complete: the successes and failures
  -- under a name have grown by the number of sinks of this name, once for each item processed.
  pub sinks-counted :
      (n : ℕ) (a : CollectAgent F E) (w : World E) (s : System F E) (name : Text)
      → Steps n (init a w) s
      → consumed name s.agent ≡ consumed name a + length s.processed * sinks_named name a.sinks
  sinks-counted n a w s name steps =
      (Steps-Inv n a (init a w) s steps (init-Inv n a w)).counted name
