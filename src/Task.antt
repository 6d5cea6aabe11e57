-- ===== src/Task.antt =====
-- src/core/domain.ts: tasks, as far as the queue and its handler read them.
use Prim.Native.Nat.{compare, Ordering}
use autobeat.Prelude.{ℕ, String, Bool, true, false, ◌≡◌, ◌≢◌, refl}

pub data TaskStatus : Type 0 where
  queued running completed failed cancelled : TaskStatus

-- `none` also stands for a task without a `dependencyState`.
pub data DependencyState : Type 0 where
  blocked ready none : DependencyState

pub data Priority : Type 0 where
  p0 p1 p2 : Priority

pub record Task : Type 0 where
  pub id : String
  pub priority : Priority
  pub status : TaskStatus
  pub dependency_state : DependencyState

-- `order` of `comparePriority`
abbrev pub order : Priority → ℕ
order p0 = 0
order p1 = 1
order p2 = 2

-- The sign of `order[a] - order[b]`.
abbrev pub compare_priority : Priority → Priority → Ordering
compare_priority a b = compare (order a) (order b)

-- `status === TaskStatus.QUEUED`
abbrev pub is_queued : TaskStatus → Bool
is_queued queued = true
is_queued _ = false

-- `dependencyState === 'blocked'`
abbrev pub is_blocked : DependencyState → Bool
is_blocked blocked = true
is_blocked _ = false

pub is_queued-queued : (s : TaskStatus) → is_queued s ≡ true → s ≡ queued
is_queued-queued queued e = refl
is_queued-queued running e = absurd cc
is_queued-queued completed e = absurd cc
is_queued-queued failed e = absurd cc
is_queued-queued cancelled e = absurd cc

pub is_blocked-blocked : (d : DependencyState) → is_blocked d ≡ false → d ≢ blocked
is_blocked-blocked blocked e h = cc
is_blocked-blocked ready e h = cc
is_blocked-blocked none e h = cc
