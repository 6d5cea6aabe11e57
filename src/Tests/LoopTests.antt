-- ===== src/Tests/LoopTests.antt =====
-- A loop of at most two iterations whose scores are numbers.
use autobeat.Prelude.{
  ℕ, String, true, false, Option, none, some, List, [], ◌∷◌, ltb, ◌==◌, ◌+◌, ◌-◌, ◌≤◌, ◌≡◌, refl,
  arith, String-discrete, ◌⊎◌,
}
use autobeat.Loops.Loop.{Loop, LoopStatus, LoopStrategy, Scores}
use autobeat.Loops.Iteration.{
  LoopIteration, IterationStatus, EvalResult, Decision, find_iteration, update_iteration, untrack,
  is_tracked, cancel_latest,
}
use autobeat.Loops.Handler.{
  LoopStore, Answers, complete_loop, start_single_task_iteration, start_next_iteration,
  schedule_next_iteration, handle_iteration_git_outcome, ended_with, record_and_stop,
  handle_task_failed, handle_loop_created, cooldown_ends, handle_loop_cancelled, handle_loop_paused,
}
use autobeat.Loops.Results.{
  filter, every, somes, few_changes, all_near, plateau, has_converged, termination, go_on,
  record_and_continue, handle_retry_result, is_score_better, keeps, handle_optimize_result,
  handle_iteration_result, handle_task_terminal,
}
use autobeat.Loops.Histories.{
  Step, task_ends, cooldown_passes, cancels, step, steps, current_iteration_le,
}
use autobeat.Loops.Unbeaten.{best_score_unbeaten}
use autobeat.Loops.Finished.{finished_stays}
use autobeat.Loops.Going.{IsGoing, ended_goes_on}

program : Unit {0}
unfolding String-discrete find_iteration update_iteration untrack is_tracked cancel_latest
    complete_loop start_single_task_iteration start_next_iteration schedule_next_iteration
    handle_iteration_git_outcome ended_with record_and_stop handle_task_failed handle_loop_created
    cooldown_ends handle_loop_cancelled handle_loop_paused filter every somes few_changes all_near
    plateau has_converged termination go_on record_and_continue handle_retry_result is_score_better
    keeps handle_optimize_result handle_iteration_result handle_task_terminal step steps
program = tt

less_irrefl : (x : ℕ) → ltb x x ≡ false
less_irrefl x = ground arith

less_trans : (x y z : ℕ) → ltb x y ≡ true → ltb y z ≡ true → ltb x z ≡ true
less_trans x y z h k = ground arith

abbrev numbers : Scores ℕ
numbers = record {
  is_less = ltb;
  is_near = ◌==◌;
  is_less_irrefl = less_irrefl;
  is_less_trans = less_trans;
}

-- As if the summaries named no changes.
abbrev no_lines : Option String → ℕ
no_lines summary = 0

abbrev all_well : Answers
all_well = record {
  recorded = true;
  updated = true;
  listed = true;
  counted = true;
  saved = true;
  pre_iteration_commit_sha = none;
  commit = record { git_commit_sha = none; git_diff_summary = none };
}

abbrev loop : Loop ℕ
loop = record {
  strategy = LoopStrategy.optimize;
  eval_direction = none;
  max_iterations = 2;
  max_consecutive_failures = 3;
  cooldown_ms = 0;
  current_iteration = 0;
  best_score = none;
  best_iteration_id = none;
  best_iteration_commit_sha = none;
  consecutive_failures = 0;
  status = LoopStatus.running;
  git_branch = none;
  git_start_commit_sha = none;
  convergence_enabled = true;
}

abbrev scored : ℕ → EvalResult ℕ
scored x = record { passed = true; score = some x; decision = none }

abbrev after : List (Step ℕ) → LoopStore ℕ
after = steps numbers no_lines (handle_loop_created all_well loop)

abbrev two_scores : List (Step ℕ)
two_scores = task_ends all_well 1 (some (scored 5)) ∷ task_ends all_well 2 (some (scored 7)) ∷ []

ends_with_best :
    ((after two_scores).loop.status ≡ LoopStatus.completed)
    × ((after two_scores).loop.best_score ≡ some 7)
    × ((after two_scores).loop.current_iteration ≡ 2)
unfolding program
ends_with_best = (refl, refl, refl)

-- The limit of iterations is not tested when a task fails.
abbrev two_failures : List (Step ℕ)
two_failures = task_ends all_well 1 none ∷ task_ends all_well 2 none ∷ []

overruns :
    ((after two_failures).loop.current_iteration ≡ 3)
    × ((after two_failures).loop.max_iterations ≡ 2)
    × ((after two_failures).task_to_loop ≡ 3 ∷ [])
unfolding program
overruns = (refl, refl, refl)

-- A loop that stops keeps the score of its last iteration, but not as its best one.
abbrev stopped : List (Step ℕ)
stopped =
    task_ends all_well 1 (some (scored 5))
    ∷ task_ends all_well 2
        (some (record { passed = true; score = some 7; decision = some Decision.stop }))
    ∷ []

stop_forgets :
    ((after stopped).loop.best_score ≡ some 5)
    × ((after stopped).loop.status ≡ LoopStatus.completed)
unfolding program
stop_forgets = (refl, refl)

current_iteration_le_example : (after two_failures).loop.current_iteration ≤ 2 + (3 - 1)
current_iteration_le_example =
    current_iteration_le numbers no_lines all_well loop two_failures (omega arith) (omega arith)
      refl refl

abbrev one_score : List (Step ℕ)
one_score = task_ends all_well 1 (some (scored 5)) ∷ []

abbrev first_iteration : LoopIteration ℕ
first_iteration = record {
  iteration_number = 1;
  status = IterationStatus.keep;
  score = some 5;
  git_commit_sha = none;
  pre_iteration_commit_sha = none;
  git_diff_summary = none;
}

best_score_unbeaten_example :
    (b : ℕ) × ((after one_score).loop.best_score ≡ some b)
    × (is_score_better numbers no_lines 5 b (after one_score).loop.eval_direction ≡ false)
unfolding program
best_score_unbeaten_example =
    best_score_unbeaten numbers no_lines all_well loop one_score 1 first_iteration 5 refl refl refl

abbrev finished : LoopStore ℕ
finished = after two_scores

-- The loop is over when its second task reports again, and it is cancelled after that.
abbrev late : List (Step ℕ)
late = task_ends all_well 2 none ∷ cooldown_passes all_well ∷ cancels all_well ∷ []

finished_stays_example :
    (((steps numbers no_lines finished late).loop ≡ finished.loop)
      ⊎ ((steps numbers no_lines finished late).loop
          ≡ record finished.loop { status = LoopStatus.cancelled }))
    × ((steps numbers no_lines finished late).events ≡ finished.events)
unfolding program
finished_stays_example = finished_stays numbers no_lines finished refl late

abbrev created : LoopStore ℕ
created = after []

abbrev running_iteration : LoopIteration ℕ
running_iteration = record first_iteration { status = IterationStatus.running; score = none }

ended_goes_on_example :
    IsGoing numbers no_lines
      (handle_task_terminal numbers no_lines all_well created 1 (some (scored 5)))
unfolding program
ended_goes_on_example =
    ended_goes_on numbers no_lines all_well refl refl refl refl created running_iteration 1
      (some (scored 5)) refl refl refl refl
