-- ===== src/Agent/Queue.antt =====
-- The bounded queue of agent/agent.go: the goroutines of Run that capture, the one that runs
-- pipelineLoop, and the cancellation of the context, interleaved in any order. A step is a channel
-- operation, or a processInfo, which holds a mutex.
pub mod Conserved
pub mod Drained
use mini_edr.Prelude.{
  ℕ, suc, Text, Bool, true, false, List, [], ◌∷◌, ◌++◌, Option, none, some, length, bytes, ltb,
  if◌then◌else◌, ◌≡◌, Float64,
}
use mini_edr.Prelude.World.{World}
use mini_edr.Capturer.Info.{InfoData}
use mini_edr.Agent.{CollectAgent, line, print, process_info}

pub record QueueItem (F : Type 0) : Type 0 where
  pub name : Text
  pub info : InfoData F

-- The agent with the world and the channel `queue`; the item that pipelineLoop has received and not
-- yet processed; the items of the goroutines that process inline, from the moment at which the
-- channel was full; and the items captured and those processed so far.
pub record System (F E : Type 0) : Type 0 where
  pub agent : CollectAgent F E
  pub world : World E
  pub queue : List (QueueItem F)
  pub received : Option (QueueItem F)
  pub inline : List (QueueItem F)
  pub is_looping : Bool
  pub is_cancelled : Bool
  pub captured : List (QueueItem F)
  pub processed : List (QueueItem F)

module _ {F E : Type 0} where
  -- When Run has made the channel and started the goroutines
  abbrev pub init : CollectAgent F E → World E → System F E
  init a w = record {
    agent = a;
    world = w;
    queue = [];
    received = none;
    inline = [];
    is_looping = true;
    is_cancelled = false;
    captured = [];
    processed = [];
  }

  -- `a.pipelineCh <- queueItem{name: name, info: info}`
  unfoldable pub enqueue : QueueItem F → System F E → System F E
  enqueue item s = record s { queue = s.queue ++ item ∷ []; captured = s.captured ++ item ∷ [] }

  -- incrementDrop
  unfoldable pub increment_drop : CollectAgent F E → CollectAgent F E
  increment_drop a = record a { queue_drops = suc a.queue_drops }

  -- The other case, where the goroutine is about to process the item itself
  unfoldable pub overflow : QueueItem F → System F E → System F E
  overflow item s =
      let said =
        print (line item.name (bytes "pipeline queue full; processing inline") []) s.agent in
      record s {
        agent = increment_drop said;
        inline = s.inline ++ item ∷ [];
        captured = s.captured ++ item ∷ [];
      }

  -- The `select` of captureOnce over a channel of capacity `n`
  unfoldable pub offer : ℕ → QueueItem F → System F E → System F E
  offer n item s = if ltb (length s.queue) n then enqueue item s else overflow item s

  -- `item := <-a.pipelineCh`
  unfoldable pub receive : QueueItem F → List (QueueItem F) → System F E → System F E
  receive item rest s = record s { queue = rest; received = some item }

  -- QueueStats with a channel of capacity `n`: pending, capacity, drops
  abbrev pub queue_stats : ℕ → System F E → ℕ × ℕ × ℕ
  queue_stats n s = (length s.queue, n, s.agent.queue_drops)

module _ {F E : Type 0} ⦃fl : Float64 F⦄ where
  -- processInfo of an item
  unfoldable pub handle : QueueItem F → System F E → System F E
  handle item s =
      let (a, w) = process_info item.name item.info s.agent s.world in
      record s { agent = a; world = w; processed = s.processed ++ item ∷ [] }

  -- Of pipelineLoop are the steps that receive, that process what is received, and that leave.
  pub data Step (n : ℕ) (s : System F E) : System F E → Type 0 where
    offered : (item : QueueItem F) → Step n s (offer n item s)
    handled_inline :
        (item : QueueItem F) (before after : List (QueueItem F))
        → s.inline ≡ before ++ item ∷ after
        → Step n s (record (handle item s) { inline = before ++ after })
    taken :
        (item : QueueItem F) (rest : List (QueueItem F))
        → s.is_looping ≡ true
        → s.received ≡ none
        → s.queue ≡ item ∷ rest
        → Step n s (receive item rest s)
    handled :
        (item : QueueItem F)
        → s.received ≡ some item
        → Step n s (record (handle item s) { received = none })
    cancelled : Step n s (record s { is_cancelled = true })
    left :
        s.is_looping ≡ true
        → s.is_cancelled ≡ true
        → s.received ≡ none
        → Step n s (record s { is_looping = false })

  -- What some sequence of steps leads to.
  pub data Steps (n : ℕ) (s : System F E) : System F E → Type 0 where
    start : Steps n s s
    later : {t u : System F E} → Steps n s t → Step n t u → Steps n s u
