-- ===== src/Labeler/Tests.antt =====
-- Runs of the labeler.
use asika.Prelude.{◌≡◌, ◌≤◌, ◌++◌, some, [], ◌∷◌, lit, length, arith}
use asika.Db.{lookup}
use asika.Queue.Samples.{world, config, pull}
use asika.Labeler.{LabelState, find_target, handle_pr_opened}
use asika.Labeler.Patterns.{IsSound, max_compiled_patterns}
use asika.Labeler.Rules.{labels_for, diff_files, handle_pr_opened_lem, handle_all, handle_all-bound}

abbrev start : LabelState
start = record { cache = []; labeled = [] }

start-IsSound : IsSound world start.cache
unfolding lookup
start-IsSound = record { coherent = λ k re e. cc; bound = omega arith }

handle_pr_opened_lem_example :
    ((handle_pr_opened world (λ rules. rules) (some config) pull (lit "g") start).labeled
      ≡ start.labeled
        ++ labels_for world
            (λ rules. rules)
            config
            pull
            (find_target world config pull (lit "g"))
            (diff_files pull (find_target world config pull (lit "g"))))
    × IsSound world
        (handle_pr_opened world (λ rules. rules) (some config) pull (lit "g") start).cache
handle_pr_opened_lem_example =
    handle_pr_opened_lem world (λ rules. rules) config pull (lit "g") start start-IsSound

handle_all-bound_example :
    length (handle_all world (λ rules. rules) config ((pull, lit "g") ∷ []) start).cache
    ≤ max_compiled_patterns
handle_all-bound_example = handle_all-bound world (λ rules. rules) config ((pull, lit "g") ∷ [])
