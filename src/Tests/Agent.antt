-- ===== src/Tests/Agent.antt =====
-- agent/agent.go: runs and instances.
use mini_edr.Prelude.{
  tally, ℕ, ◌+◌, ◌*◌, ◌≤◌, ℤ, Text, text_eq, text_beq, bytes, Bool, true, false, List, [], ◌++◌,
  none, some, length, lookup, insert, ◌≡◌, refl, int_floats,
}
use mini_edr.Agent.{
  Sink, CollectAgent, process_info, consume_all, record_sink_result, record_err, count_outcome,
  stat_of, print_sink_error, print, run_pipeline,
}
use mini_edr.Agent.Accounts.{
  consumed, sinks_named, sink_errors, responder_errors, process_info-errs,
}
use mini_edr.Agent.SetUp.{new_collect_agent, add_sink}
use mini_edr.Agent.Queue.{
  QueueItem, System, offered, handled_inline, cancelled, left, Steps, start, later, init, offer,
  enqueue, overflow, increment_drop, handle,
}
use mini_edr.Agent.Queue.Conserved.{underway, queue-conserved, sinks-counted}
use mini_edr.Agent.Queue.Drained.{queue-drained, queue-HasLeft}
use mini_edr.Tests.Samples.{world_at, blank_info}

-- A sink that counts the reports in the outside world, and one that fails.
abbrev counter : Sink ℤ ℕ
counter = record {
  name = bytes "Counter";
  consume = λ info w. (none, record w { outside = w.outside + 1 });
}

abbrev broken : Sink ℤ ℕ
broken = record { name = bytes "Broken"; consume = λ info w. (some (bytes "full"), w) }

abbrev agent : CollectAgent ℤ ℕ
agent =
    add_sink (some broken)
      (add_sink (some counter) (new_collect_agent (bytes "host") (bytes "+0000") (bytes "s-1")))

abbrev item_of : Text → QueueItem ℤ
item_of name = record { name = name; info = blank_info }

abbrev is_cpu : QueueItem ℤ → Bool
is_cpu item = text_beq item.name (bytes "CPU")

process_info-errs_example :
    (process_info (bytes "CPU") blank_info agent (world_at 0 0)).0.errs
    ≡ agent.errs
      ++ (sink_errors blank_info agent.sinks (world_at 0 0)).0
      ++ responder_errors agent.pipeline blank_info
          (sink_errors blank_info agent.sinks (world_at 0 0)).1
process_info-errs_example = process_info-errs (bytes "CPU") blank_info agent (world_at 0 0)

-- One place in the channel: the second item is processed inline while the first one waits.
abbrev first_queued : System ℤ ℕ
first_queued = offer 1 (item_of (bytes "CPU")) (init agent (world_at 0 0))

abbrev second_inline : System ℤ ℕ
second_inline = offer 1 (item_of (bytes "NET")) first_queued

abbrev second_done : System ℤ ℕ
second_done = record (handle (item_of (bytes "NET")) second_inline) { inline = [] }

run_until_done : Steps 1 (init agent (world_at 0 0)) second_done
unfolding offer enqueue overflow
run_until_done =
    later (later (later start (offered (item_of (bytes "CPU")))) (offered (item_of (bytes "NET"))))
      (handled_inline (item_of (bytes "NET")) [] [] refl)

queue-conserved_example :
    (length second_done.queue ≤ 1)
    × (tally is_cpu second_done.captured
        ≡ tally is_cpu second_done.processed + underway is_cpu second_done)
queue-conserved_example = queue-conserved 1 agent (world_at 0 0) second_done is_cpu run_until_done

sinks-counted_example :
    consumed (bytes "Counter") second_done.agent
    ≡ consumed (bytes "Counter") agent
      + length second_done.processed * sinks_named (bytes "Counter") agent.sinks
sinks-counted_example =
    sinks-counted 1 agent (world_at 0 0) second_done (bytes "Counter") run_until_done

queue-drained_example :
    (t : System ℤ ℕ) × Steps 1 second_done t
    × (t.queue ≡ [])
    × (t.captured ≡ second_done.captured)
    × (tally is_cpu t.processed ≡ tally is_cpu second_done.captured)
unfolding handle offer enqueue overflow
queue-drained_example = queue-drained 1 agent (world_at 0 0) second_done is_cpu run_until_done refl

-- The context ends while an item is queued.
abbrev stopped : System ℤ ℕ
stopped = record first_queued { is_cancelled = true; is_looping = false }

queue-HasLeft_example :
    (more : List (QueueItem ℤ)) × ((offer 1 (item_of (bytes "NET")) stopped).queue
      ≡ stopped.queue ++ more)
unfolding offer enqueue
queue-HasLeft_example =
    queue-HasLeft 1 stopped (offer 1 (item_of (bytes "NET")) stopped)
      (later start (offered (item_of (bytes "NET")))) refl refl

-- The agent comes to this state: it is one where the item is lost.
stopped-Steps : Steps 1 (init agent (world_at 0 0)) stopped
unfolding offer enqueue
stopped-Steps =
    later (later (later start (offered (item_of (bytes "CPU")))) cancelled) (left refl refl refl)

-- Both sinks have their outcome, and the failure is the last error.
second_done-stats :
    (consumed (bytes "Counter") second_done.agent ≡ 1)
    × (second_done.world.outside ≡ 1)
    × (second_done.agent.queue_drops ≡ 1)
    × ((stat_of (bytes "Broken") second_done.agent.sink_stats).last_err ≡ some (bytes "full"))
unfolding handle offer enqueue overflow process_info consume_all stat_of lookup run_pipeline
    increment_drop print add_sink new_collect_agent record_sink_result record_err print_sink_error
    insert text_beq count_outcome
second_done-stats = (refl, refl, refl, refl)
