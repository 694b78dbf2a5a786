-- ===== src/Queue/Manager/Run.antt =====
-- Sequences of the operations that fill and empty the queue, each in a world of its own.
use asika.Prelude.{List, [], ◌∷◌, Bytes}
use asika.Models.{Time, PrRecord, Config}
use asika.Queue.World.{World}
use asika.Queue.Store.{State}
use asika.Queue.Manager.Filed.{IsFiled}
use asika.Queue.Manager.Admit.{add_to_queue_scheduled, remove_from_queue, clear_queue}
use asika.Queue.Manager.Admit.Filing.{
  add_to_queue_scheduled-IsFiled, remove_from_queue-IsFiled, clear_queue-IsFiled,
}
use asika.Queue.Manager.Recover.{recover}
use asika.Queue.Manager.Recover.Settled.{recover-IsFiled}

pub data Operation : Type 1 where
  add : World → Config → PrRecord → Time → Operation
  remove : World → Bytes → Bytes → Operation
  clear : World → Bytes → Operation
  restart : World → Operation

pub step : Operation → State → State
step (add w cfg pr schedule_at) st = (add_to_queue_scheduled w cfg pr schedule_at st).2
step (remove w group id) st = (remove_from_queue w group id st).1
step (clear w group) st = (clear_queue w group st).1
step (restart w) st = recover w st

pub run : List Operation → State → State
run [] st = st
run (o ∷ os) st = run os (step o st)

step-IsFiled : (o : Operation) (st : State) → IsFiled st.queue → IsFiled (step o st).queue
unfolding step
step-IsFiled (add w cfg pr schedule_at) st filed =
    add_to_queue_scheduled-IsFiled w cfg pr schedule_at st filed
step-IsFiled (remove w group id) st filed = remove_from_queue-IsFiled w group id st filed
step-IsFiled (clear w group) st filed = clear_queue-IsFiled w group st filed
step-IsFiled (restart w) st filed = recover-IsFiled w st filed

-- Any sequence of `AddToQueueScheduled`, `RemoveFromQueue`, `ClearQueue` and `Recover`, with any
-- errors of the database, keeps every item of the queue under the key of its own pull request, if
-- every item is so at the start.
pub run-IsFiled : (os : List Operation) (st : State) → IsFiled st.queue → IsFiled (run os st).queue
unfolding run
run-IsFiled [] st filed = filed
run-IsFiled (o ∷ os) st filed = run-IsFiled os (step o st) (step-IsFiled o st filed)
