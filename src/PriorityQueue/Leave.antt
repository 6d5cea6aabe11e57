-- ===== src/PriorityQueue/Leave.antt =====
-- A node leaves the heap: the last one takes its place, and is then put into its own.
use autobeat.Prelude.{
  ℕ, suc, ◌<◌, ◌≤◌, true, false, some, List, ◌∷◌, length, ltb, ◌==◌, if◌then◌else◌, ◌≡◌, ◌≢◌, arith,
  refl, Bool-cases, dec_lt, ℕ_discrete, inl, inr, ◌∙◌, sym,
}
use mathlib.Core.List.{Perm}
use mathlib.Core.List.Perm
use autobeat.Prelude.Array
use autobeat.PriorityQueue.{
  HeapNode, PriorityTaskQueue, swaps, parent, bubble_up_on, bubble_up, bubble_down, put, popped,
}
use autobeat.PriorityQueue.Order.{key_at, IsFresh, IsHeap, swaps-key_at}
use autobeat.PriorityQueue.Kept.{
  bubble_up-IsFresh, bubble_down-IsFresh, bubble_up-Rearranged, bubble_down-Rearranged,
}
use autobeat.PriorityQueue.Up.{MayRise, bubble_up-IsHeap}
use autobeat.PriorityQueue.Down.{MaySink, bubble_down-IsHeap}
use autobeat.PriorityQueue.Index.{
  At, IsIndexed, without, popped_at, popped_lt, popped-IsIndexed, put_at, put_lt, put-IsIndexed,
  bubble_up-IsIndexed, bubble_down-IsIndexed,
}
use autobeat.PriorityQueue.Valid.{IsValid, IsOrdered-IsHeap, IsHeap-IsOrdered}

heap-MaySink : (bound : ℕ) (a : List HeapNode) (i : ℕ) → IsHeap bound a → MaySink bound a i
heap-MaySink bound a i h = record {
  others = λ c r p q. h c p q;
  bridged = λ c r u p q. grind (arith, h c p q, h i u);
}

settled-IsValid :
    (bound : ℕ) (r : PriorityTaskQueue)
    → r.insertion_counter ≡ bound
    → IsFresh bound r.heap
    → IsIndexed r
    → IsHeap bound r.heap
    → IsValid r
settled-IsValid bound r same fresh indexed heap = record {
  ordered = IsHeap-IsOrdered bound r.heap fresh heap;
  fresh = rw same fresh;
  indexed = indexed;
}

bubble_up_stays :
    (q : PriorityTaskQueue) (i : ℕ)
    → ((0 < i) → swaps q.heap (parent i) i ≡ false)
    → bubble_up q i ≡ q
unfolding bubble_up bubble_up_on
bubble_up_stays q i h = elim (Bool-cases (ltb 0 i)) [
  | inr root ↦ rw (root, bubble_up_on) refl
  | inl pos ↦ rw (pos, h (ground arith), bubble_up_on) refl
]

module _ (q : PriorityTaskQueue) (v : IsValid q) (i m : ℕ) (x y : HeapNode) (e : At q i x)
    (size : length q.heap ≡ suc m) (last : At q m y) where
  abbrev bound : ℕ
  bound = q.insertion_counter

  abbrev pub rest : PriorityTaskQueue
  rest = without q v.indexed i m x y e size last

  abbrev pub refilled : PriorityTaskQueue
  refilled = put rest i y

  before : IsHeap bound q.heap
  before = IsOrdered-IsHeap bound q.heap v.fresh v.ordered

  rest_size : length rest.heap ≡ m
  unfolding popped
  rest_size = omega (arith, Array.length-init q.heap, size)

  refilled_size : length refilled.heap ≡ m
  unfolding put
  refilled_size = Array.length-set rest.heap i y ∙ rest_size

  rest_key : (c : ℕ) → c < m → key_at bound rest.heap c ≡ key_at bound q.heap c
  unfolding key_at
  rest_key c h = ground (arith, popped_at q v.indexed i m x y e size last c h)

  pub rest-IsValid : i ≡ m → IsValid rest
  unfolding popped
  rest-IsValid at_end =
      let at : (n : ℕ) → n < m → Array.get_elem? rest.heap n ≡ Array.get_elem? q.heap n =
        popped_at q v.indexed i m x y e size last in
      let fresh : IsFresh bound rest.heap =
        λ n z h. v.fresh n z (sym (at n (popped_lt q v.indexed i m x y e size last n z h)) ∙ h) in
      record {
        ordered =
            IsHeap-IsOrdered bound rest.heap fresh
              (λ c p h. ground (arith, rest_size, rest_key c, rest_key (parent c), before c));
        fresh = fresh;
        indexed = popped-IsIndexed q v.indexed i m x y e size last at_end;
      }

  pub rest-perm : i ≡ m → Perm (x ∷ rest.heap) q.heap
  unfolding popped
  rest-perm at_end = Array.init-perm q.heap m x size (rw at_end at e)

  module _ (inner : i < m) where
    refilled_at :
        (n : ℕ)
        → n < m
        → Array.get_elem? refilled.heap n ≡ (if i == n then some y else Array.get_elem? q.heap n)
    refilled_at = put_at q v.indexed i m x y e size last inner

    refilled_key :
        (c : ℕ)
        → c < m
        → key_at bound refilled.heap c
          ≡ (if i == c then key_at bound q.heap m else key_at bound q.heap c)
    unfolding key_at
    refilled_key c h = ground (arith, refilled_at c)

    refilled-IsFresh : IsFresh bound refilled.heap
    refilled-IsFresh n z h =
        let below = put_lt q v.indexed i m x y e size last n z h in
        ground (arith, refilled_at n, v.fresh n z, v.fresh m y last)

    refilled-IsIndexed : IsIndexed refilled
    refilled-IsIndexed = put-IsIndexed q v.indexed i m x y e size last inner

    refilled-perm : Perm (x ∷ refilled.heap) q.heap
    unfolding put popped
    refilled-perm =
        Perm.trans
          (Array.set-perm rest.heap i x y (popped_at q v.indexed i m x y e size last i inner ∙ e))
          (Array.init-perm q.heap m y size last)

    -- The edges that do not touch the refilled position, and those past it.
    refilled_edges :
        (c : ℕ)
        → c ≢ i
        → parent c ≢ i
        → 0 < c
        → c < length refilled.heap
        → key_at bound refilled.heap (parent c) ≤ key_at bound refilled.heap c
    refilled_edges c ne ne' p h =
        ground (arith, refilled_size, refilled_key c, refilled_key (parent c), before c)

    refilled_bridged :
        (c : ℕ)
        → parent c ≡ i
        → 0 < i
        → 0 < c
        → c < length refilled.heap
        → key_at bound refilled.heap (parent i) ≤ key_at bound refilled.heap c
    refilled_bridged c r u p h =
        ground (arith, refilled_size, refilled_key c, refilled_key (parent i), before c, before i)

    refilled_counter : refilled.insertion_counter ≡ bound
    unfolding put popped
    refilled_counter = refl

    inside : i < length refilled.heap
    inside = omega (arith, refilled_size, inner)

    root-MaySink : i ≡ 0 → MaySink bound refilled.heap i
    root-MaySink root = record {
      others = λ c r p h. refilled_edges c (omega (arith, root, p)) r p h;
      bridged = refilled_bridged;
    }

    pub sunk-IsValid : i ≡ 0 → IsValid (bubble_down refilled i)
    sunk-IsValid root =
        let kept = bubble_down-Rearranged refilled i in
        settled-IsValid bound (bubble_down refilled i) (kept.1 ∙ refilled_counter)
          (bubble_down-IsFresh bound refilled i refilled-IsFresh)
          (bubble_down-IsIndexed refilled i refilled-IsIndexed)
          (bubble_down-IsHeap bound refilled i inside refilled-IsFresh (root-MaySink root))

    pub sunk-perm : Perm (x ∷ (bubble_down refilled i).heap) q.heap
    sunk-perm =
        let kept = bubble_down-Rearranged refilled i in
        Perm.trans (Perm.cons x kept.2) refilled-perm

    above :
        0 < i
        → swaps refilled.heap (parent i) i
          ≡ ltb (key_at bound refilled.heap i) (key_at bound refilled.heap (parent i))
    above pos =
        swaps-key_at bound refilled.heap (parent i) i (omega (arith, inside)) inside
          refilled-IsFresh

    rises-MayRise : 0 < i → swaps refilled.heap (parent i) i ≡ true → MayRise bound refilled.heap i
    rises-MayRise pos rises =
        let test = above pos in
        record {
          inside = inside;
          others = λ c ne p h. elim (ℕ_discrete (parent c) i) [
            | yes under ↦ ground (arith, refilled_bridged c under pos p h)
            | no apart ↦ refilled_edges c ne apart p h
          ];
          bridged = refilled_bridged;
        }

    stays-MaySink :
        (0 < i → swaps refilled.heap (parent i) i ≡ false) → MaySink bound refilled.heap i
    stays-MaySink stays = record {
      others = λ c r p h. elim (ℕ_discrete c i) [
        | yes same ↦
            let pos : 0 < i = omega (arith, p, same) in
            let test = above pos in rw same (ground (arith, stays pos))
        | no apart ↦ refilled_edges c apart r p h
      ];
      bridged = refilled_bridged;
    }

    abbrev risen : PriorityTaskQueue
    risen = bubble_up refilled i

    risen-MaySink : MaySink bound risen.heap i
    risen-MaySink = elim (dec_lt 0 i) [
      | no root ↦ stay (λ pos. absurd (root pos))
      | yes pos ↦ elim (Bool-cases (swaps refilled.heap (parent i) i)) [
        | inr stays ↦ stay (λ _. stays)
        | inl rises ↦
            heap-MaySink bound risen.heap i
              (bubble_up-IsHeap bound refilled i refilled-IsFresh (rises-MayRise pos rises))
      ]
    ]
      where
        stay :
            (0 < i → swaps refilled.heap (parent i) i ≡ false)
            → MaySink bound (bubble_up refilled i).heap i
        stay h = rw (bubble_up_stays refilled i h) (stays-MaySink h)

    pub moved-IsValid : IsValid (bubble_down (bubble_up refilled i) i)
    moved-IsValid =
        let up = bubble_up-Rearranged refilled i in
        let down = bubble_down-Rearranged (bubble_up refilled i) i in
        let fresh = bubble_up-IsFresh bound refilled i refilled-IsFresh in
        settled-IsValid bound (bubble_down (bubble_up refilled i) i)
          (down.1 ∙ up.1 ∙ refilled_counter)
          (bubble_down-IsFresh bound (bubble_up refilled i) i fresh)
          (bubble_down-IsIndexed (bubble_up refilled i) i
            (bubble_up-IsIndexed refilled i refilled-IsIndexed))
          (bubble_down-IsHeap bound (bubble_up refilled i) i (omega (arith, up.3, inside)) fresh
            risen-MaySink)

    pub moved-perm : Perm (x ∷ (bubble_down (bubble_up refilled i) i).heap) q.heap
    moved-perm =
        let up = bubble_up-Rearranged refilled i in
        let down = bubble_down-Rearranged (bubble_up refilled i) i in
        Perm.trans (Perm.cons x (Perm.trans down.2 up.2)) refilled-perm
