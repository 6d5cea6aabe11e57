-- ===== src/PriorityQueue/Fifo.antt =====
-- With tasks of one priority only, the priority queue and the FIFO queue are one.
use autobeat.Prelude.{
  ℕ, String, false, List, [], ◌∷◌, ◌++◌, if◌then◌else◌, ite, ◌≡◌, arith, refl, Bool-cases, inl, inr,
  ◌∙◌, sym, ap, leb, length, String-discrete,
}
use autobeat.Task.{Task, Priority}
use autobeat.Queue.{FifoTaskQueue, some_task, splice}
use autobeat.Queue
use autobeat.PriorityQueue.{new, get_all, dequeue}
use autobeat.PriorityQueue.Histories.{Call, enqueues, removes, dequeues, clears, calls}
use autobeat.PriorityQueue.View.{place}
use autobeat.PriorityQueue.Shown.{first_of}
use autobeat.PriorityQueue.Refined.{serve, serves, queue_refines}

-- The same calls on a FIFO queue.
unfoldable pub fifo_call : FifoTaskQueue → Call → FifoTaskQueue
fifo_call q (enqueues t) = if Queue.contains q t.id then q else (Queue.enqueue q t).0
fifo_call q (removes id) = (Queue.remove q id).0
fifo_call q dequeues = (Queue.dequeue q).0
fifo_call q clears = Queue.clear q

unfoldable pub fifo_calls : FifoTaskQueue → List Call → FifoTaskQueue
fifo_calls q [] = q
fifo_calls q (c ∷ cs) = fifo_calls (fifo_call q c) cs

abbrev IsCallOf : Priority → Call → Type 0
IsCallOf p (enqueues t) = t.priority ≡ p
IsCallOf p _ = Unit

-- Every task that the calls queue is of the priority.
abbrev pub IsUniform : Priority → List Call → Type 0
IsUniform p [] = Unit
IsUniform p (c ∷ cs) = IsCallOf p c × IsUniform p cs

abbrev AreOf : Priority → List Task → Type 0
AreOf p [] = Unit
AreOf p (t ∷ ts) = (t.priority ≡ p) × AreOf p ts

place-last :
    (p : Priority) (t : Task) (ts : List Task)
    → t.priority ≡ p
    → AreOf p ts
    → (place t ts ≡ ts ++ t ∷ []) × AreOf p (ts ++ t ∷ [])
unfolding place
place-last p t [] e h = (refl, (e, tt))
place-last p t (u ∷ us) e (h, hs) =
    let (rest, of) = place-last p t us e hs in (ground (arith, rest), (h, of))

splice-AreOf : (p : Priority) (ts : List Task) (id : String) → AreOf p ts → AreOf p (splice ts id)
unfolding splice
splice-AreOf p [] id h = h
splice-AreOf p (t ∷ ts) id (h, hs) =
    elim (String-discrete t.id id) as (λ d. AreOf p (ite d ts (t ∷ splice ts id))) [
      | yes e ↦ hs
      | no e ↦ (h, splice-AreOf p ts id hs)
    ]

splice_absent : (ts : List Task) (id : String) → some_task ts id ≡ false → splice ts id ≡ ts
unfolding splice some_task
splice_absent [] id h = refl
splice_absent (t ∷ ts) id h = ground (arith, splice_absent ts id)

record Agree (p : Priority) (limit : ℕ) (q : FifoTaskQueue) (ts : List Task) : Type 0 where
  same : q ≡ record { tasks = ts; max_queue_size = limit }
  uniform : AreOf p ts

call-Agree :
    (p : Priority) (limit : ℕ) (ts : List Task) (c : Call)
    → IsCallOf p c
    → AreOf p ts
    → Agree p limit (fifo_call (record { tasks = ts; max_queue_size = limit }) c) (serve limit ts c)
unfolding fifo_call serve Queue.contains Queue.enqueue Queue.remove Queue.dequeue
call-Agree p limit ts (enqueues t) of h =
    let (last, are) = place-last p t ts of h in
    elim (Bool-cases (some_task ts t.id)) [
      | inl queued ↦ record {
        same = rw (queued, fifo_call, serve, Queue.contains) refl;
        uniform = rw (queued, serve) h;
      }
      | inr free ↦ elim (Bool-cases (leb limit (length ts))) [
        | inl full ↦ record {
          same = rw (free, full, fifo_call, serve, Queue.contains, Queue.enqueue) refl;
          uniform = rw (free, full, serve) h;
        }
        | inr room ↦ record {
          same = rw (free, room, last, fifo_call, serve, Queue.contains, Queue.enqueue) refl;
          uniform = rw (free, room, last, serve) are;
        }
      ]
    ]
call-Agree p limit ts (removes id) of h = record {
  same = ground (arith, splice_absent ts id);
  uniform = splice-AreOf p ts id h;
}
call-Agree p limit [] dequeues of h = record { same = refl; uniform = h }
call-Agree p limit (t ∷ ts) dequeues of (_, h) = record { same = refl; uniform = h }
call-Agree p limit ts clears of h = record { same = refl; uniform = tt }

calls-Agree :
    (p : Priority) (limit : ℕ) (q : FifoTaskQueue) (ts : List Task) (cs : List Call)
    → IsUniform p cs
    → Agree p limit q ts
    → Agree p limit (fifo_calls q cs) (serves limit ts cs)
unfolding fifo_calls serves
calls-Agree p limit q ts [] u a = a
calls-Agree p limit q ts (c ∷ cs) (of, u) a =
    let next : Agree p limit (fifo_call q c) (serve limit ts c) =
      rw a.same (call-Agree p limit ts c of a.uniform) in
    calls-Agree p limit (fifo_call q c) (serve limit ts c) cs u next

module _ (p : Priority) (limit : ℕ) (cs : List Call) (u : IsUniform p cs) where
  agree : Agree p limit (fifo_calls (Queue.new limit) cs) (serves limit [] cs)
  agree = calls-Agree p limit (Queue.new limit) [] cs u (record { same = refl; uniform = tt })

  fifo-first :
      (ts : List Task)
      → (Queue.dequeue (record { tasks = ts; max_queue_size = limit })).1 ≡ first_of ts
  unfolding Queue.dequeue
  fifo-first [] = refl
  fifo-first (t ∷ ts) = refl

  -- Calls that queue no id twice and only tasks of one priority leave the two queues with the same tasks
  -- in the same order, and the same task leaves next.
  pub uniform-fifo :
      (get_all (calls (new limit) cs) ≡ Queue.get_all (fifo_calls (Queue.new limit) cs))
      × ((dequeue (calls (new limit) cs)).1 ≡ (Queue.dequeue (fifo_calls (Queue.new limit) cs)).1)
  uniform-fifo =
      let (all, next, _) = queue_refines limit cs in
      (
        all ∙ sym (ap (λ q. q.tasks) agree.same),
        next
            ∙ sym (fifo-first (serves limit [] cs))
            ∙ sym (ap (λ q. (Queue.dequeue q).1) agree.same),
      )
