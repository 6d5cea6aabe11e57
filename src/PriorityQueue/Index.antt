-- ===== src/PriorityQueue/Index.antt =====
-- The table of positions agrees with the heap.
use autobeat.Prelude.{
  ℕ, suc, ◌<◌, String, none, some, [], ◌∷◌, ◌++◌, length, ◌==◌, if◌then◌else◌, ◌≡◌, ◌≢◌, arith,
  Option-cases, inl, inr, String-discrete, ite,
}
use autobeat.Prelude.Array
use autobeat.Prelude.Dict
use autobeat.Prelude.Dict.{get-set, get-delete}
use autobeat.PriorityQueue.{HeapNode, PriorityTaskQueue, swap, put, popped, bubble_up, bubble_down}
use autobeat.PriorityQueue.Kept.{bubble_up_keeps, bubble_down_keeps}

abbrev pub At : PriorityTaskQueue → ℕ → HeapNode → Type 0
At q n x = Array.get_elem? q.heap n ≡ some x

-- The position of each node is in the table, and each position there is that of a node of that id.
pub record IsIndexed (q : PriorityTaskQueue) : Type 0 where
  pub found : (n : ℕ) (x : HeapNode) → At q n x → Dict.get q.task_index x.task.id ≡ some n
  pub known :
      (id : String) (n : ℕ)
      → Dict.get q.task_index id ≡ some n
      → (x : HeapNode) × At q n x × (x.task.id ≡ id)

module _ (q : PriorityTaskQueue) (v : IsIndexed q) where
  pub At-unique : (n m : ℕ) (x y : HeapNode) → At q n x → At q m y → x.task.id ≡ y.task.id → n ≡ m
  At-unique n m x y e e' same = let f = v.found n x e in let g = v.found m y e' in ground arith

  module _ (i j : ℕ) (x y : HeapNode) (e : At q i x) (e' : At q j y) where
    abbrev exchanged : PriorityTaskQueue
    exchanged = record q {
      heap = Array.swap q.heap i j;
      task_index = Dict.set (Dict.set q.task_index y.task.id i) x.task.id j;
    }

    exchanged_get :
        (id : String)
        → Dict.get exchanged.task_index id
          ≡ ite
              (String-discrete id x.task.id)
              (some j)
              (ite (String-discrete id y.task.id) (some i) (Dict.get q.task_index id))
    exchanged_get id = ground (
      arith,
      get-set (Dict.set q.task_index y.task.id i) x.task.id j id,
      get-set q.task_index y.task.id i id,
    )

    exchanged-found :
        (n : ℕ) (z : HeapNode) → At exchanged n z → Dict.get exchanged.task_index z.task.id ≡ some n
    exchanged-found n z h = ground (
      arith,
      exchanged_get z.task.id,
      Array.get_elem?-swap q.heap i j x y n e e',
      At-unique n i z x,
      At-unique n j z y,
      At-unique i j x y e e',
      v.found n z,
    )

    exchanged-known :
        (id : String) (n : ℕ)
        → Dict.get exchanged.task_index id ≡ some n
        → (z : HeapNode) × At exchanged n z × (z.task.id ≡ id)
    exchanged-known id n h = elim (String-discrete id x.task.id) [
      | yes of_x ↦ (
        x,
        ground (arith, exchanged_get id, Array.get_elem?-swap q.heap i j x y n e e'),
        ground arith,
      )
      | no not_x ↦ elim (String-discrete id y.task.id) [
        | yes of_y ↦ (
          y,
          ground (arith, exchanged_get id, Array.get_elem?-swap q.heap i j x y n e e'),
          ground arith,
        )
        | no not_y ↦
            let (z, at_n, named) = v.known id n (ground (arith, exchanged_get id)) in
            (z, ground (arith, Array.get_elem?-swap q.heap i j x y n e e'), named)
      ]
    ]

  swap-IsIndexed : (i j : ℕ) → IsIndexed (swap q i j)
  unfolding swap
  swap-IsIndexed i j = elim (Option-cases (Array.get_elem? q.heap i)) [
    | inl e ↦ rw (e, swap) v
    | inr (x, e) ↦ elim (Option-cases (Array.get_elem? q.heap j)) [
      | inl e' ↦ rw (e, e', swap) v
      | inr (y, e') ↦
          rw (e, e', swap)
            (record { found = exchanged-found i j x y e e'; known = exchanged-known i j x y e e' })
    ]
  ]

pub bubble_up-IsIndexed : (q : PriorityTaskQueue) (i : ℕ) → IsIndexed q → IsIndexed (bubble_up q i)
bubble_up-IsIndexed q i v = bubble_up_keeps IsIndexed (λ r j k h. swap-IsIndexed r h j k) q i v

pub bubble_down-IsIndexed :
    (q : PriorityTaskQueue) (i : ℕ) → IsIndexed q → IsIndexed (bubble_down q i)
bubble_down-IsIndexed q i v = bubble_down_keeps IsIndexed (λ r j k h. swap-IsIndexed r h j k) q i v

-- A node of a new id at the end.
pub append-IsIndexed :
    (q r : PriorityTaskQueue) (x : HeapNode)
    → IsIndexed q
    → Dict.get q.task_index x.task.id ≡ none
    → r.heap ≡ q.heap ++ x ∷ []
    → r.task_index ≡ Dict.set q.task_index x.task.id (length q.heap)
    → IsIndexed r
append-IsIndexed q r x v fresh h t = record {
  found = λ n z e. ground (
    arith,
    get-set q.task_index x.task.id (length q.heap) z.task.id,
    Array.get_elem?-append q.heap x n,
    v.found n z,
  );
  known = λ id n e. elim (String-discrete id x.task.id) [
    | yes new_one ↦ (
      x,
      ground (
        arith,
        get-set q.task_index x.task.id (length q.heap) id,
        Array.get_elem?-append q.heap x n,
      ),
      ground arith,
    )
    | no old_one ↦
        let (z, there, named) =
          v.known id n (ground (arith, get-set q.task_index x.task.id (length q.heap) id)) in
        (
          z,
          ground (arith, Array.get_elem?-append q.heap x n, Array.get_elem?-lt q.heap n z there),
          named,
        )
  ];
}

-- A node `x` leaves its position `i`; the last node is `y`, at `m`.
module _ (q : PriorityTaskQueue) (v : IsIndexed q) (i m : ℕ) (x y : HeapNode) (e : At q i x)
    (size : length q.heap ≡ suc m) (last : At q m y) where
  abbrev pub without : PriorityTaskQueue
  without = popped q x.task.id

  pub popped_at : (n : ℕ) → n < m → Array.get_elem? without.heap n ≡ Array.get_elem? q.heap n
  unfolding popped
  popped_at n h = Array.get_elem?-init q.heap n (omega (arith, size, h))

  pub popped_lt : (n : ℕ) (z : HeapNode) → At without n z → n < m
  unfolding popped
  popped_lt n z h =
      omega (arith, Array.get_elem?-lt without.heap n z h, Array.length-init q.heap, size)

  popped_get :
      (id : String)
      → Dict.get without.task_index id
        ≡ ite (String-discrete id x.task.id) none (Dict.get q.task_index id)
  unfolding popped
  popped_get id = get-delete q.task_index x.task.id id

  pub popped-IsIndexed : i ≡ m → IsIndexed without
  popped-IsIndexed at_end = record {
    found = λ n z h.
        let below = popped_lt n z h in
        ground (arith, popped_at n, popped_get z.task.id, v.found n z, At-unique q v n i z x);
    known = λ id n h.
        let (z, there, named) = v.known id n (ground (arith, popped_get id)) in
        let inside = Array.get_elem?-lt q.heap n z there in
        let below : n < m = ground (arith, popped_get id) in
        (z, ground (arith, popped_at n), named);
  }

  pub put_at :
      i < m
      → (n : ℕ) → n < m
      → Array.get_elem? (put without i y).heap n
        ≡ (if i == n then some y else Array.get_elem? q.heap n)
  unfolding put popped
  put_at inner n h =
      ground (arith, Array.get_elem?-set without.heap i y n, Array.length-init q.heap, popped_at n)

  pub put_lt : (n : ℕ) (z : HeapNode) → At (put without i y) n z → n < m
  unfolding put popped
  put_lt n z h = omega (
    arith,
    Array.get_elem?-lt (put without i y).heap n z h,
    Array.length-set without.heap i y,
    Array.length-init q.heap,
    size,
  )

  put-get :
      (id : String)
      → Dict.get (put without i y).task_index id
        ≡ ite (String-discrete id y.task.id) (some i) (Dict.get without.task_index id)
  unfolding put
  put-get id = get-set without.task_index y.task.id i id

  pub put-IsIndexed : i < m → IsIndexed (put without i y)
  put-IsIndexed inner = record {
    found = λ n z h.
        let below = put_lt n z h in
        ground (
          arith,
          put_at inner n,
          put-get z.task.id,
          popped_get z.task.id,
          v.found n z,
          At-unique q v n i z x,
          At-unique q v n m z y,
        );
    known = λ id n h. elim (String-discrete id y.task.id) [
      | yes of_last ↦ (y, ground (arith, put-get id, put_at inner n), ground arith)
      | no other ↦
          let (z, there, named) = v.known id n (ground (arith, put-get id, popped_get id)) in
          let inside = Array.get_elem?-lt q.heap n z there in
          let below : n < m = ground arith in
          let apart : n ≢ i = ground (arith, put-get id, popped_get id) in
          (z, ground (arith, put_at inner n), named)
    ];
  }
