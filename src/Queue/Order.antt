-- ===== src/Queue/Order.antt =====
-- The FIFO queue: its bound, its order, and the laws of a `TaskQueue`.
use autobeat.Prelude.{
  ℕ, zero, suc, ◌+◌, ◌≤◌, String, true, none, some, List, [], ◌∷◌, ◌++◌, ite, length, length-append,
  String-discrete, ◌≡◌, ◌≢◌, refl, arith, inl, inr, List-cases,
}
use autobeat.Result.{ok, err, ErrorCode}
use autobeat.Task.{Task}
use autobeat.Queue.{
  TaskQueue, Laws, FifoTaskQueue, new, enqueue, dequeue, some_task, splice, remove, contains, size,
  clear,
}

-- What a caller may do to the queue.
pub data Call : Type 0 where
  enqueues : Task → Call
  removes : String → Call
  dequeues clears : Call

unfoldable pub call : FifoTaskQueue → Call → FifoTaskQueue
call q (enqueues t) = (enqueue q t).0
call q (removes id) = (remove q id).0
call q dequeues = (dequeue q).0
call q clears = clear q

unfoldable pub calls : FifoTaskQueue → List Call → FifoTaskQueue
calls q [] = q
calls q (c ∷ cs) = calls (call q c) cs

length-splice : (ts : List Task) (id : String) → length (splice ts id) ≤ length ts
unfolding splice
length-splice [] id = omega arith
length-splice (t ∷ ts) id = ground (arith, length-splice ts id)

abbrev IsBounded : FifoTaskQueue → Type 0
IsBounded q = size q ≤ q.max_queue_size

call-IsBounded :
    (q : FifoTaskQueue) (c : Call)
    → IsBounded q
    → IsBounded (call q c) × ((call q c).max_queue_size ≡ q.max_queue_size)
unfolding call enqueue dequeue remove
call-IsBounded q (enqueues t) h = ground (arith, length-append q.tasks (t ∷ []))
call-IsBounded q (removes id) h = ground (arith, length-splice q.tasks id)
call-IsBounded q dequeues h = elim (List-cases q.tasks) [
  | inl e ↦ rw e ground arith
  | inr (t, ts, e) ↦ ground arith
]
call-IsBounded q clears h = (omega arith, refl)

calls-size_le :
    (q : FifoTaskQueue) (cs : List Call) → IsBounded q → size (calls q cs) ≤ q.max_queue_size
unfolding calls
calls-size_le q [] h = h
calls-size_le q (c ∷ cs) h =
    let (h', same) = call-IsBounded q c h in omega (arith, calls-size_le (call q c) cs h', same)

-- Whatever is done to a new queue, it never holds more tasks than its limit.
pub calls-new-size_le : (limit : ℕ) (cs : List Call) → size (calls (new limit) cs) ≤ limit
calls-new-size_le limit cs = calls-size_le (new limit) cs (omega arith)

unfoldable pub enqueue_all : FifoTaskQueue → List Task → FifoTaskQueue
enqueue_all q [] = q
enqueue_all q (t ∷ ts) = enqueue_all (enqueue q t).0 ts

-- The tasks that the given number of dequeues return.
unfoldable pub dequeue_many : ℕ → FifoTaskQueue → List Task
dequeue_many zero q = []
dequeue_many (suc n) q = elim (dequeue q).1 [
  | none ↦ []
  | some t ↦ t ∷ dequeue_many n (dequeue q).0
]

++-assoc : (ts us vs : List Task) → (ts ++ us) ++ vs ≡ ts ++ (us ++ vs)
++-assoc [] us vs = refl
++-assoc (t ∷ ts) us vs = rw (++-assoc ts us vs) refl

++-nil : (ts : List Task) → ts ++ [] ≡ ts
++-nil [] = refl
++-nil (t ∷ ts) = rw (++-nil ts) refl

enqueue_room :
    (q : FifoTaskQueue) (t : Task)
    → suc (length q.tasks) ≤ q.max_queue_size
    → (enqueue q t).0 ≡ record q { tasks = q.tasks ++ t ∷ [] }
unfolding enqueue
enqueue_room q t h = ground arith

enqueue_all-tasks :
    (q : FifoTaskQueue) (ts : List Task)
    → length q.tasks + length ts ≤ q.max_queue_size
    → enqueue_all q ts ≡ record q { tasks = q.tasks ++ ts }
unfolding enqueue_all
enqueue_all-tasks q [] h = rw (++-nil q.tasks) refl
enqueue_all-tasks q (t ∷ ts) h =
    let q' : FifoTaskQueue = record q { tasks = q.tasks ++ t ∷ [] } in
    let fits : length q'.tasks + length ts ≤ q.max_queue_size =
      omega (arith, length-append q.tasks (t ∷ []), h) in
    rw
      (
        enqueue_room q t (omega (arith, h)),
        enqueue_all-tasks q' ts fits,
        ++-assoc q.tasks (t ∷ []) ts,
      )
      refl

dequeue_many-tasks :
    (limit : ℕ) (ts : List Task)
    → dequeue_many (length ts) (record { tasks = ts; max_queue_size = limit }) ≡ ts
unfolding dequeue_many dequeue
dequeue_many-tasks limit [] = refl
dequeue_many-tasks limit (t ∷ ts) = rw (dequeue_many-tasks limit ts) refl

-- Tasks that fit into a new queue come out in the order in which they went in.
pub dequeue_many-enqueue_all :
    (limit : ℕ) (ts : List Task)
    → length ts ≤ limit
    → dequeue_many (length ts) (enqueue_all (new limit) ts) ≡ ts
dequeue_many-enqueue_all limit ts h =
    rw (enqueue_all-tasks (new limit) ts (omega (arith, h))) (dequeue_many-tasks limit ts)

some_task-append :
    (ts : List Task) (t : Task) (id : String)
    → some_task (ts ++ t ∷ []) id ≡ ite (String-discrete t.id id) true (some_task ts id)
unfolding some_task
some_task-append [] t id = refl
some_task-append (u ∷ ts) t id = ground (arith, some_task-append ts t id)

pub contains-enqueue :
    (q : FifoTaskQueue) (t : Task) → (enqueue q t).1 ≡ ok tt → contains (enqueue q t).0 t.id ≡ true
unfolding enqueue contains
contains-enqueue q t e = ground (arith, some_task-append q.tasks t t.id)

some_task-splice :
    (ts : List Task) (id other : String)
    → some_task (splice ts id) other ≡ true
    → some_task ts other ≡ true
unfolding some_task splice
some_task-splice [] id other h = h
some_task-splice (t ∷ ts) id other h = ground (arith, some_task-splice ts id other)

pub enqueue_refused :
    (q : FifoTaskQueue) (t : Task) (e : ErrorCode) → (enqueue q t).1 ≡ err e → (enqueue q t).0 ≡ q
unfolding enqueue
enqueue_refused q t e r = ground arith

pub contains-enqueue_other :
    (q : FifoTaskQueue) (t : Task) (id : String)
    → id ≢ t.id
    → contains (enqueue q t).0 id ≡ contains q id
unfolding enqueue contains
contains-enqueue_other q t id other = ground (arith, some_task-append q.tasks t id)

pub contains-remove :
    (q : FifoTaskQueue) (id other : String)
    → contains (remove q id).0 other ≡ true
    → contains q other ≡ true
unfolding remove contains
contains-remove q id other h = ground (arith, some_task-splice q.tasks id other)

-- The FIFO queue as the handler sees it: `remove` never fails.
unfoldable pub fifo : TaskQueue FifoTaskQueue
fifo = record {
  enqueue = enqueue;
  remove = λ q id. ((remove q id).0, ok (remove q id).1);
  contains = contains;
}

-- The FIFO queue keeps the laws of the handler whatever it holds.
fifo-Laws : Laws fifo
unfolding fifo
fifo-Laws = record {
  IsValid = λ q. Unit {0};
  enqueue_new = λ q t v. contains-enqueue q t;
  enqueue_refused = enqueue_refused;
  enqueue_other = λ q t v. contains-enqueue_other q t;
  enqueue_valid = λ q t v unknown. tt;
  remove_fewer = λ q v. contains-remove q;
  remove_valid = λ q v id. tt;
}
