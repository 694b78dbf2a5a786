-- ===== src/Queue/Pending/Tests.antt =====
-- Runs of the pending queue.
use asika.Prelude.{none, some, [], ◌∷◌, lit}
use asika.Queue.Samples.{world, state}
use asika.Queue.Pending.{PendingPr, PendingWorld, PendingState}

abbrev pending_world : PendingWorld
pending_world = record {
  world = world;
  pending_put_error = λ k. none;
  pending_delete_error = λ k. none;
}

abbrev pending : PendingPr
pending = record {
  pr_id = lit "p1";
  repo_group = lit "g";
  platform = lit "github";
  pr_number = 7;
  title = lit "fix it";
  author = lit "al";
  approval_count = 1;
  added_at = 50;
  last_checked = 50;
}

abbrev pending_state : PendingState
pending_state = record { pending = (lit "g#github#7", some pending) ∷ []; main = state }
