-- ===== src/PriorityQueue/Refined.antt =====
-- The queue implements the abstract one: what `getAll` shows after any use is what the abstract queue holds.
use autobeat.Prelude.{
  ℕ, String, true, false, List, [], ◌∷◌, if◌then◌else◌, ◌≡◌, refl, Bool-cases, inl, inr, ◌∙◌, sym,
  ap, leb, length,
}
use autobeat.Task.{Task}
use autobeat.Queue.{some_task, splice}
use autobeat.PriorityQueue.{PriorityTaskQueue, sort, get_all, new, enqueue, dequeue, contains}
use autobeat.PriorityQueue.Valid.{new-IsValid, enqueue-IsValid}
use autobeat.PriorityQueue.Histories.{
  Call, enqueues, removes, dequeues, clears, call, calls, call-IsValid, contains_unknown,
}
use autobeat.PriorityQueue.View.{place, length-sort}
use autobeat.PriorityQueue.Shown.{
  rest_of, first_of, IsSound, enqueue-perm, enqueue_full, contains-some_task, enqueue-get_all,
  dequeue-get_all, remove-get_all,
}

-- The abstract queue, of a limited size.
unfoldable pub serve : ℕ → List Task → Call → List Task
serve limit ts (enqueues t) =
    if some_task ts t.id then ts else (if leb limit (length ts) then ts else place t ts)
serve limit ts (removes id) = splice ts id
serve limit ts dequeues = rest_of ts
serve limit ts clears = []

unfoldable pub serves : ℕ → List Task → List Call → List Task
serves limit ts [] = ts
serves limit ts (c ∷ cs) = serves limit (serve limit ts c) cs

-- The two queues in step.
record Shows (limit : ℕ) (q : PriorityTaskQueue) (ts : List Task) : Type 0 where
  sound : IsSound q
  limited : q.max_queue_size ≡ limit
  shown : get_all q ≡ ts

enqueue-Shows :
    (limit : ℕ) (q : PriorityTaskQueue) (ts : List Task) (t : Task)
    → Shows limit q ts
    → contains q t.id ≡ false
    → leb q.max_queue_size (length q.heap) ≡ false
    → Shows limit (enqueue q t).0 (place t ts)
enqueue-Shows limit q ts t s free room =
    let (apart, shown) = enqueue-get_all q s.sound t free room in
    record {
      sound = record {
        valid = enqueue-IsValid q s.sound.valid t (contains_unknown q t.id free);
        apart = apart;
      };
      limited = (enqueue-perm q t room).1 ∙ s.limited;
      shown = shown ∙ ap (place t) s.shown;
    }

call-Shows :
    (limit : ℕ) (q : PriorityTaskQueue) (ts : List Task) (c : Call)
    → Shows limit q ts
    → Shows limit (call q c) (serve limit ts c)
unfolding call serve get_all sort
call-Shows limit q ts (enqueues t) s =
    let known = contains-some_task q s.sound t.id ∙ ap (λ us. some_task us t.id) s.shown in
    let size : length ts ≡ length q.heap = ap length (sym s.shown) ∙ length-sort q.heap in
    elim (Bool-cases (contains q t.id)) [
      | inl queued ↦ rw (queued, sym known ∙ queued, call, serve) s
      | inr free ↦ elim (Bool-cases (leb q.max_queue_size (length q.heap))) [
        | inl full ↦
            let full' : leb limit (length ts) ≡ true = rw (size, ← s.limited) full in
            rw (free, sym known ∙ free, full', enqueue_full q t full, call, serve) s
        | inr room ↦
            let room' : leb limit (length ts) ≡ false = rw (size, ← s.limited) room in
            rw (free, sym known ∙ free, room', call, serve) (enqueue-Shows limit q ts t s free room)
      ]
    ]
call-Shows limit q ts (removes id) s =
    let (sound, limited, shown) = remove-get_all q s.sound id in
    record {
      sound = sound;
      limited = limited ∙ s.limited;
      shown = shown ∙ ap (λ us. splice us id) s.shown;
    }
call-Shows limit q ts dequeues s =
    let (sound, limited, _, shown) = dequeue-get_all q s.sound in
    record { sound = sound; limited = limited ∙ s.limited; shown = shown ∙ ap rest_of s.shown }
call-Shows limit q ts clears s = record {
  sound = record { valid = call-IsValid q s.sound.valid clears; apart = tt };
  limited = s.limited;
  shown = refl;
}

calls-Shows :
    (limit : ℕ) (q : PriorityTaskQueue) (ts : List Task) (cs : List Call)
    → Shows limit q ts
    → Shows limit (calls q cs) (serves limit ts cs)
unfolding calls serves
calls-Shows limit q ts [] s = s
calls-Shows limit q ts (c ∷ cs) s =
    calls-Shows limit (call q c) (serve limit ts c) cs (call-Shows limit q ts c s)

new-Shows : (limit : ℕ) → Shows limit (new limit) []
unfolding get_all sort
new-Shows limit = record {
  sound = record { valid = new-IsValid limit; apart = tt };
  limited = refl;
  shown = refl;
}

module _ (limit : ℕ) (cs : List Call) where
  abbrev used : PriorityTaskQueue
  used = calls (new limit) cs

  in_step : Shows limit used (serves limit [] cs)
  in_step = calls-Shows limit (new limit) [] cs (new-Shows limit)

  -- As long as no id is queued twice, after any calls `getAll` lists, `contains` knows and `dequeue` takes
  -- what the abstract queue holds after the same calls: a task waits behind those of its priority and of a
  -- more urgent one, up to the limit, and the first leaves.
  pub queue_refines :
      (get_all used ≡ serves limit [] cs)
      × ((dequeue used).1 ≡ first_of (serves limit [] cs))
      × ((id : String) → contains used id ≡ some_task (serves limit [] cs) id)
  queue_refines =
      let s = in_step in
      (
        s.shown,
        (dequeue-get_all used s.sound).2 ∙ ap first_of s.shown,
        λ id. contains-some_task used s.sound id ∙ ap (λ ts. some_task ts id) s.shown,
      )
