-- ===== src/PriorityQueue/Shown.antt =====
-- What each operation does to the list that `getAll` shows.
use autobeat.Prelude.{
  String, true, false, Option, none, some, List, [], ◌∷◌, ◌≡◌, arith, refl, Bool-cases,
  Option-cases, inl, inr, ◌∙◌, sym, ap, leb, length,
}
use mathlib.Core.List.{Perm}
use mathlib.Core.List.Perm
use autobeat.Prelude.Array
use autobeat.Prelude.Dict
use autobeat.Task.{Task}
use autobeat.Queue.{some_task, splice}
use autobeat.PriorityQueue.{
  HeapNode, PriorityTaskQueue, should_swap, sort, get_all, enqueue, dequeue, remove, contains,
}
use autobeat.PriorityQueue.Kept.{bubble_up-Rearranged}
use autobeat.PriorityQueue.Index.{At}
use autobeat.PriorityQueue.Valid.{IsValid}
use autobeat.PriorityQueue.Methods.{Left, dequeue_cases, remove_cases}
use autobeat.PriorityQueue.Histories.{contains_unknown, first}
use autobeat.PriorityQueue.Sorted.{
  All, All-map, All-at, at_All, All-perm, All-sort, sort-All, IsOther, IsApart, IsApart-perm,
  sort-perm, insert_first,
}
use autobeat.PriorityQueue.View.{
  place, tasks_of, IsLater, insert-place, IsNot, some_task-none, none-some_task, splice-insert,
  splice_none,
}

abbrev pub rest_of : List Task → List Task
rest_of [] = []
rest_of (t ∷ ts) = ts

abbrev pub first_of : List Task → Option Task
first_of [] = none
first_of (t ∷ ts) = some t

pub record IsSound (q : PriorityTaskQueue) : Type 0 where
  pub valid : IsValid q
  pub apart : IsApart q.heap

abbrev node : PriorityTaskQueue → Task → HeapNode
node q t = record { task = t; insertion_order = q.insertion_counter }

pub enqueue-perm :
    (q : PriorityTaskQueue) (t : Task)
    → leb q.max_queue_size (length q.heap) ≡ false
    → Perm (enqueue q t).0.heap (node q t ∷ q.heap)
      × ((enqueue q t).0.max_queue_size ≡ q.max_queue_size)
unfolding enqueue
enqueue-perm q t room =
    let kept = bubble_up-Rearranged _ (length q.heap) in
    rw (room, enqueue) (Perm.trans kept.2 (Array.append-perm q.heap (node q t)), kept.0)

pub enqueue_full :
    (q : PriorityTaskQueue) (t : Task)
    → leb q.max_queue_size (length q.heap) ≡ true
    → (enqueue q t).0 ≡ q
unfolding enqueue
enqueue_full q t full = ground arith

module _ (q : PriorityTaskQueue) (v : IsSound q) where
  none_named : (id : String) → contains q id ≡ false → All (IsNot id) q.heap
  none_named id e = All-at (IsNot id) q.heap (λ n z there named.
      let k = v.valid.indexed.found n z there in let unknown = contains_unknown q id e in absurd cc)

  pub contains-some_task : (id : String) → contains q id ≡ some_task (get_all q) id
  unfolding get_all contains
  contains-some_task id = elim (Bool-cases (contains q id)) [
    | inr unknown ↦
        let shown =
          some_task-none id (sort q.heap) (All-sort (IsNot id) q.heap (none_named id unknown)) in
        unknown ∙ sym shown
    | inl known ↦ elim (Bool-cases (some_task (get_all q) id)) [
      | inl shown ↦ known ∙ sym shown
      | inr hidden ↦
          let others = sort-All (IsNot id) q.heap (none-some_task id (sort q.heap) hidden) in
          elim (Option-cases (Dict.get q.task_index id)) [
            | inl e ↦ absurd (ground arith)
            | inr (n, e) ↦
                let (x, there, named) = v.valid.indexed.known id n e in
                absurd (at_All (IsNot id) q.heap others n x there named)
          ]
    ]
  ]

  pub enqueue-get_all :
      (t : Task)
      → contains q t.id ≡ false
      → leb q.max_queue_size (length q.heap) ≡ false
      → IsApart (enqueue q t).0.heap × (get_all (enqueue q t).0 ≡ place t (get_all q))
  unfolding get_all sort
  enqueue-get_all t free room =
      let x = node q t in
      let perm = (enqueue-perm q t room).0 in
      let later : All (IsLater x) q.heap = All-at (IsLater x) q.heap v.valid.fresh in
      let others : All (IsOther x) q.heap = All-at (IsOther x) q.heap (λ n y there. (
        λ same. let earlier = v.valid.fresh n y there in absurd (omega (arith, earlier, same)),
        λ named. at_All (IsNot t.id) q.heap (none_named t.id free) n y there (sym named),
      )) in
      let apart = IsApart-perm (Perm.symm perm) (others, v.apart) in
      (
        apart,
        ap tasks_of (sort-perm perm apart)
            ∙ insert-place x (sort q.heap) (All-sort (IsLater x) q.heap later),
      )

  -- One node left.
  module _ (q' : PriorityTaskQueue) (x : HeapNode) (left : Left q q' x) where
    left-IsApart : IsApart (x ∷ q'.heap)
    left-IsApart = IsApart-perm (Perm.symm left.others) v.apart

    left-IsSound : IsSound q'
    left-IsSound = record { valid = left.valid; apart = left-IsApart.1 }

    left-splice : splice (get_all q) x.task.id ≡ get_all q'
    unfolding get_all sort
    left-splice =
        let others : All (IsNot x.task.id) q'.heap =
          All-map (IsOther x) (IsNot x.task.id) q'.heap (λ y ne e. ne.1 (sym e)) left-IsApart.0 in
        ap (λ l. splice (tasks_of l) x.task.id) (sort-perm (Perm.symm left.others) v.apart)
        ∙ splice-insert x (sort q'.heap) (All-sort (IsNot x.task.id) q'.heap others)

    left-first : At q 0 x → get_all q ≡ x.task ∷ get_all q'
    unfolding get_all sort
    left-first root =
        let IsBehind : HeapNode → Type 0 = λ y. should_swap x y ≡ false in
        let all = All-at IsBehind q.heap (first q v.valid x root) in
        let behind = All-perm IsBehind (λ y. hlevel) (Perm.symm left.others) all in
        ap tasks_of (sort-perm (Perm.symm left.others) v.apart ∙ insert_first x q'.heap behind.1)

  pub dequeue-get_all :
      IsSound (dequeue q).0
      × ((dequeue q).0.max_queue_size ≡ q.max_queue_size)
      × ((dequeue q).1 ≡ first_of (get_all q))
      × (get_all (dequeue q).0 ≡ rest_of (get_all q))
  unfolding get_all sort
  dequeue-get_all = elim (dequeue_cases q v.valid) [
    | inl (nothing, same) ↦
        let empty : get_all q ≡ [] = rw nothing refl in
        rw same (v, refl, rw empty refl, rw empty refl)
    | inr (x, q', root, done, left) ↦
        let shown = left-first q' x left root in
        rw done (left-IsSound q' x left, left.limit, rw shown refl, rw shown refl)
  ]

  pub remove-get_all :
      (id : String)
      → IsSound (remove q id).0
        × ((remove q id).0.max_queue_size ≡ q.max_queue_size)
        × (get_all (remove q id).0 ≡ splice (get_all q) id)
  unfolding get_all sort contains
  remove-get_all id = elim (remove_cases q v.valid id) [
    | inl (unknown, same) ↦
        let others = none_named id (ground arith) in
        rw same (v, refl, sym (splice_none id (sort q.heap) (All-sort (IsNot id) q.heap others)))
    | inr (x, q', named, done, left) ↦
        rw done (left-IsSound q' x left, left.limit, rw (sym named) (sym (left-splice q' x left)))
  ]
