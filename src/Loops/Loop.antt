-- ===== src/Loops/Loop.antt =====
-- src/core/domain.ts: the loops, as far as the handler's decisions read them.
use autobeat.Prelude.{ℕ, String, Bool, true, false, Option, ◌≡◌}

pub data LoopStatus : Type 0 where
  running paused completed failed cancelled : LoopStatus

pub data LoopStrategy : Type 0 where
  retry optimize : LoopStrategy

pub data OptimizeDirection : Type 0 where
  minimize maximize : OptimizeDirection

-- What the handler does with scores: it compares them, and tests whether they differ by less than
-- `SCORE_EPSILON`.
pub record Scores (S : Type 0) : Type 0 where
  pub is_less : S → S → Bool
  pub is_near : S → S → Bool
  pub is_less_irrefl : (x : S) → is_less x x ≡ false
  pub is_less_trans : (x y z : S) → is_less x y ≡ true → is_less y z ≡ true → is_less x z ≡ true

pub record Loop (S : Type 0) : Type 0 where
  pub strategy : LoopStrategy
  pub eval_direction : Option OptimizeDirection
  pub max_iterations : ℕ
  pub max_consecutive_failures : ℕ
  pub cooldown_ms : ℕ
  pub current_iteration : ℕ
  pub best_score : Option S
  pub best_iteration_id : Option ℕ
  pub best_iteration_commit_sha : Option String
  pub consecutive_failures : ℕ
  pub status : LoopStatus
  pub git_branch : Option String
  pub git_start_commit_sha : Option String
  pub convergence_enabled : Bool

abbrev pub is_running : LoopStatus → Bool
is_running LoopStatus.running = true
is_running _ = false

abbrev pub is_paused : LoopStatus → Bool
is_paused LoopStatus.paused = true
is_paused _ = false
