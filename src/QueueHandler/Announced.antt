-- ===== src/QueueHandler/Announced.antt =====
-- A task enters the queue only with its event, and only when it may run.
use autobeat.Prelude.{
  String, true, false, some, [], List, ◌∷◌, ◌++◌, ◌≡◌, ◌≢◌, refl, ◌⊎◌, inl, inr, arith, Bool-cases,
  Option-cases, String-discrete, ◌∈◌, ∈-append, sym, ◌∙◌,
}
use autobeat.Result.{ok, Result-cases}
use autobeat.Task.{
  Task, TaskStatus, DependencyState, is_queued, is_blocked, is_queued-queued, is_blocked-blocked,
}
use autobeat.Queue.{TaskQueue, Laws}
use autobeat.QueueHandler.{
  QueueHandler, Repositories, enqueue, counts_as_blocked, enqueue_if_ready,
  handle_task_cancellation, handle_requeue_task, handle_task_unblocked, Call, enqueues_if_ready,
  requeues, cancels, unblocks, call, calls,
}

-- A task may be queued: by an explicit request, or because nothing blocks it.
abbrev pub MayRun : Repositories → Call → Task → Type 0
MayRun repos (enqueues_if_ready t) u =
    (t ≡ u) × (u.dependency_state ≢ DependencyState.blocked) × (repos.is_blocked u.id ≢ ok true)
MayRun repos (requeues t) u = t ≡ u
MayRun repos (cancels id) u = ⊥
MayRun repos (unblocks id) u = (repos.find_by_id id ≡ ok (some u)) × (u.status ≡ TaskStatus.queued)

module _ {Q : Type 0} (tq : TaskQueue Q) (laws : Laws tq) (h : QueueHandler Q)
    (up : h.is_set_up ≡ true) where
  abbrev admitted : Task → QueueHandler Q
  admitted t = record {
    queue = (tq.enqueue h.queue t).0;
    is_set_up = true;
    task_queued = h.task_queued ++ t.id ∷ [];
  }

  enqueue_cases :
      (t : Task)
      → ((enqueue tq h t).0 ≡ h)
        ⊎ (((tq.enqueue h.queue t).1 ≡ ok tt) × ((enqueue tq h t).0 ≡ admitted t))
  unfolding enqueue
  enqueue_cases t = elim (Result-cases (tq.enqueue h.queue t).1) [
    | inl (v, e) ↦ inr (e, ground arith)
    | inr (x, e) ↦ inl (ground (arith, laws.enqueue_refused h.queue t x e))
  ]

  module _ (repos : Repositories) where
    -- What a call does to a handler that is set up: nothing, a removal, or an announced task.
    data Does (c : Call) : Type 0 where
      nothing : call tq repos h c ≡ h → Does c
      drops :
          (id : String) → call tq repos h c ≡ record h { queue = (tq.remove h.queue id).0 } → Does c
      admits :
          (t : Task)
          → MayRun repos c t
          → (tq.enqueue h.queue t).1 ≡ ok tt
          → call tq repos h c ≡ admitted t
          → Does c

    enqueue-Does :
        (c : Call) (t : Task) → MayRun repos c t → call tq repos h c ≡ (enqueue tq h t).0 → Does c
    enqueue-Does c t may e = elim (enqueue_cases t) [
      | inl same ↦ nothing (e ∙ same)
      | inr (took, now) ↦ admits t may took (e ∙ now)
    ]

    call-Does : (c : Call) → Does c
    unfolding call enqueue_if_ready handle_requeue_task handle_task_cancellation
        handle_task_unblocked
    call-Does (enqueues_if_ready t) = elim (Bool-cases (is_blocked t.dependency_state)) [
      | inl e ↦ nothing (ground arith)
      | inr e ↦ elim (Bool-cases (counts_as_blocked (repos.is_blocked t.id))) [
        | inl e' ↦ nothing (ground arith)
        | inr e' ↦
            enqueue-Does (enqueues_if_ready t) t
              (refl, is_blocked-blocked t.dependency_state e, ground arith) (ground arith)
      ]
    ]
    call-Does (requeues t) = enqueue-Does (requeues t) t refl refl
    call-Does (cancels id) = elim (Bool-cases (tq.contains h.queue id)) [
      | inl e ↦ elim (Result-cases (tq.remove h.queue id).1) [
        | inl (b, r) ↦ drops id (ground arith)
        | inr (x, r) ↦ drops id (ground arith)
      ]
      | inr e ↦ nothing (ground arith)
    ]
    call-Does (unblocks id) = elim (Result-cases (repos.find_by_id id)) [
      | inr (x, e) ↦ nothing (ground arith)
      | inl (o, e) ↦ elim (Option-cases o) [
        | inl e' ↦ nothing (ground arith)
        | inr (t, e') ↦ elim (Bool-cases (is_queued t.status)) [
          | inl s ↦ enqueue-Does (unblocks id) t (cc, is_queued-queued t.status s) (ground arith)
          | inr s ↦ nothing (ground arith)
        ]
      ]
    ]

    -- One call on a queue that is valid.
    module _ (valid : laws.IsValid h.queue) where
      entered :
          (c : Call) (x : String)
          → tq.contains h.queue x ≡ false
          → tq.contains (call tq repos h c).queue x ≡ true
          → (x ∈ (call tq repos h c).task_queued) × ((t : Task) × (t.id ≡ x) × MayRun repos c t)
      entered c x before after = elim (call-Does c) [
        | nothing e ↦ absurd cc
        | drops id e ↦ let k = laws.remove_fewer h.queue valid id x (rw e at after) in absurd cc
        | admits t may took e ↦ elim (String-discrete x t.id) [
          | yes same ↦
              (rw e ((∈-append x h.task_queued (t.id ∷ [])).1 (inr (inl same))), (t, sym same, may))
          | no other ↦ let k = laws.enqueue_other h.queue t valid x other in absurd cc
        ]
      ]

      announced :
          (c : Call) (x : String)
          → ¬ (x ∈ h.task_queued)
          → x ∈ (call tq repos h c).task_queued
          → tq.contains (call tq repos h c).queue x ≡ true
      announced c x before after = elim (call-Does c) [
        | nothing e ↦ absurd (before (rw e at after))
        | drops id e ↦ absurd (before (rw e at after))
        | admits t may took e ↦ elim ((∈-append x h.task_queued (t.id ∷ [])).0 (rw e at after)) [
          | inl old ↦ absurd (before old)
          | inr (inl same) ↦ rw (e, same) (laws.enqueue_new h.queue t valid took)
          | inr (inr none_there) ↦ absurd none_there
        ]
      ]

      call-IsKept :
          (c : Call)
          → ((t : Task) → MayRun repos c t → tq.contains h.queue t.id ≡ false)
          → ((call tq repos h c).is_set_up ≡ true) × laws.IsValid (call tq repos h c).queue
      call-IsKept c unknown = elim (call-Does c) [
        | nothing e ↦ rw e (up, valid)
        | drops id e ↦ rw e (up, laws.remove_valid h.queue valid id)
        | admits t may took e ↦ rw e (refl, laws.enqueue_valid h.queue t valid (unknown t may))
      ]

module _ {Q : Type 0} (tq : TaskQueue Q) (repos : Repositories) where
  -- No call of the history asks for a task to be queued whose id is queued already.
  abbrev pub IsDistinct : QueueHandler Q → List Call → Type 0
  IsDistinct h [] = Unit
  IsDistinct h (c ∷ cs) =
      ((t : Task) → MayRun repos c t → tq.contains h.queue t.id ≡ false)
      × IsDistinct (call tq repos h c) cs

module _ {Q : Type 0} (tq : TaskQueue Q) (laws : Laws tq) (repos : Repositories) where
  calls-IsKept :
      (h : QueueHandler Q) (cs : List Call)
      → h.is_set_up ≡ true
      → laws.IsValid h.queue
      → IsDistinct tq repos h cs
      → ((calls tq repos h cs).is_set_up ≡ true) × laws.IsValid (calls tq repos h cs).queue
  unfolding calls
  calls-IsKept h [] up valid distinct = (up, valid)
  calls-IsKept h (c ∷ cs) up valid (unknown, distinct) =
      let (up', valid') = call-IsKept tq laws h up repos valid c unknown in
      calls-IsKept (call tq repos h c) cs up' valid' distinct

  module _ (h : QueueHandler Q) (cs : List Call) (up : h.is_set_up ≡ true)
      (valid : laws.IsValid h.queue) (distinct : IsDistinct tq repos h cs) where
    abbrev used : QueueHandler Q
    used = calls tq repos h cs

    -- For a queue that keeps the laws: a handler that is set up with a valid queue has taken any calls,
    -- none of which asked for a task to be queued whose id was queued. When it takes one more, a task
    -- that is not in the queue before it and is there after it was announced by a `TaskQueued` event,
    -- and it may run: its requeue was asked for, or it was delegated, its own state is not blocked and
    -- the repository did not call it blocked, or it was unblocked and the repository has it in the
    -- state QUEUED.
    pub entered_announced :
        (c : Call) (x : String)
        → tq.contains used.queue x ≡ false
        → tq.contains (call tq repos used c).queue x ≡ true
        → (x ∈ (call tq repos used c).task_queued) × ((t : Task) × (t.id ≡ x) × MayRun repos c t)
    entered_announced =
        let (up', valid') = calls-IsKept h cs up valid distinct in
        entered tq laws used up' repos valid'

    -- For a queue that keeps the laws: a handler that is set up with a valid queue has taken any calls,
    -- none of which asked for a task to be queued whose id was queued. A task that one more call
    -- announces, and that was not announced before, is in the queue after it.
    pub announced_contains :
        (c : Call) (x : String)
        → ¬ (x ∈ used.task_queued)
        → x ∈ (call tq repos used c).task_queued
        → tq.contains (call tq repos used c).queue x ≡ true
    announced_contains =
        let (up', valid') = calls-IsKept h cs up valid distinct in
        announced tq laws used up' repos valid'
