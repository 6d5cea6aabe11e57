-- ===== src/Loops/Iteration.antt =====
-- The iterations of a loop (src/core/domain.ts) and what an evaluation says (src/core/interfaces.ts),
-- without the texts that are only stored.
use autobeat.Prelude.{
  ℕ, String, Bool, true, false, Option, none, some, List, [], ◌∷◌, ◌==◌, if◌then◌else◌, ◌||◌,
}

pub data IterationStatus : Type 0 where
  running pass fail keep discard crash cancelled progress : IterationStatus

pub record LoopIteration (S : Type 0) : Type 0 where
  pub iteration_number : ℕ
  pub status : IterationStatus
  pub score : Option S
  pub git_commit_sha : Option String
  pub pre_iteration_commit_sha : Option String
  pub git_diff_summary : Option String

pub data Decision : Type 0 where
  continue stop : Decision

pub record EvalResult (S : Type 0) : Type 0 where
  pub passed : Bool
  pub score : Option S
  pub decision : Option Decision

pub record GitOutcome : Type 0 where
  pub git_commit_sha : Option String
  pub git_diff_summary : Option String

abbrev pub is_running : IterationStatus → Bool
is_running IterationStatus.running = true
is_running _ = false

abbrev pub is_keep : IterationStatus → Bool
is_keep IterationStatus.keep = true
is_keep _ = false

-- `status === 'pass' || status === 'keep' || status === 'progress'`
abbrev pub is_successful : IterationStatus → Bool
is_successful IterationStatus.pass = true
is_successful IterationStatus.keep = true
is_successful IterationStatus.progress = true
is_successful _ = false

-- … `|| status === 'discard'`
abbrev pub is_evaluated : IterationStatus → Bool
is_evaluated IterationStatus.discard = true
is_evaluated status = is_successful status

module _ {S : Type 0} where
  -- The row of the iteration of that number.
  unfoldable pub find_iteration : List (LoopIteration S) → ℕ → Option (LoopIteration S)
  find_iteration [] n = none
  find_iteration (it ∷ its) n = if it.iteration_number == n then some it else find_iteration its n

  unfoldable pub update_iteration :
      List (LoopIteration S) → LoopIteration S → List (LoopIteration S)
  update_iteration [] new = []
  update_iteration (it ∷ its) new =
      (if it.iteration_number == new.iteration_number then new else it) ∷ update_iteration its new

  unfoldable pub cancel_latest : List (LoopIteration S) → List (LoopIteration S)
  cancel_latest [] = []
  cancel_latest (it ∷ its) =
      if is_running it.status
      then update_iteration (it ∷ its) (record it { status = IterationStatus.cancelled })
      else it ∷ its

  -- The iteration of that number is cancelled, whatever its status.
  unfoldable pub cancel_iteration : List (LoopIteration S) → ℕ → List (LoopIteration S)
  cancel_iteration its n = elim (find_iteration its n) [
    | none ↦ its
    | some it ↦ update_iteration its (record it { status = IterationStatus.cancelled })
  ]

unfoldable pub untrack : List ℕ → ℕ → List ℕ
untrack [] n = []
untrack (m ∷ ms) n = let rest = untrack ms n in if m == n then rest else m ∷ rest

unfoldable pub is_tracked : List ℕ → ℕ → Bool
is_tracked [] n = false
is_tracked (m ∷ ms) n = (m == n) || is_tracked ms n
