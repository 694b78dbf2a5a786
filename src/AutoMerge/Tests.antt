-- ===== src/AutoMerge/Tests.antt =====
-- Runs of the automatic merge.
use asika.Prelude.{◌≡◌, ◌⊎◌, false, some, []}
use asika.Queue.Samples.{world, config, pull, state}
use asika.AutoMerge.{AutoState, is_closed, evaluate_pr}
use asika.AutoMerge.Once.{AtMostOne, evaluate_pr-AtMostOne}

abbrev start : AutoState
start = record { store = state.store; merges = [] }

evaluate_pr-AtMostOne_example :
    (is_closed pull ≡ false)
      × AtMostOne world config pull config.auto_merge.rules start
          (evaluate_pr world config (some pull) start).1
    ⊎ ((evaluate_pr world config (some pull) start).1.merges ≡ [])
evaluate_pr-AtMostOne_example = evaluate_pr-AtMostOne world config pull start
