-- ===== src/Queue/Serial/Tests.antt =====
-- Runs of the serial worker.
use asika.Prelude.{◌≡◌, refl, none, some, [], ◌∷◌, lit, text_eq}
use asika.Models.{QueueItem, ValidationStatus}
use asika.Db.{lookup}
use asika.Queue.Samples.{world, config, item, state}
use asika.Queue.Serial.{SerialWorld, SerialState, process_one, process}
use asika.Queue.Serial.Moves.{HasMoved}
use asika.Queue.Serial.Machine.{process_one-HasMoved}
use asika.Queue.Serial.Tick.{process-queue}

abbrev serial_world : SerialWorld
serial_world = record {
  world = world;
  rebase_and_push = λ p o r info. none;
  serial_put_error = λ k. none;
}

abbrev waiting : QueueItem
waiting = record item { validation_status = ValidationStatus.waiting_ci; validation_started = 50 }

abbrev serial_state : SerialState
serial_state = record { serial = (lit "g#p1", some waiting) ∷ []; main = state }

listed : lookup (lit "g#p1") serial_state.serial ≡ some (some waiting)
unfolding lookup lit text_eq
listed = refl

process_one-HasMoved_example :
    HasMoved serial_world config waiting serial_state
      (lit "g#p1")
      (process_one serial_world config waiting (lit "g#p1") serial_state).1
process_one-HasMoved_example =
    process_one-HasMoved serial_world config waiting (lit "g#p1") serial_state listed

process-queue_example :
    lookup (lit "g#p1") (process (λ k. serial_world) config serial_state).1.main.queue
    ≡ lookup (lit "g#p1") state.queue
process-queue_example = process-queue (λ k. serial_world) config (lit "g#p1") serial_state refl
