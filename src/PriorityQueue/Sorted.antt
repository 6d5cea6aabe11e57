-- ===== src/PriorityQueue/Sorted.antt =====
-- The order of `getAll` depends only on which nodes the heap has, if their insertion orders differ.
use autobeat.Prelude.{
  ℕ, zero, suc, false, List, [], ◌∷◌, ◌≡◌, ◌≢◌, arith, refl, Bool-cases, inl, inr, ◌∙◌, sym, ap,
  subst, some, String, String-discrete,
}
use mathlib.Core.HLevel.{hedberg}
use mathlib.Core.Logic.{∥∥₁_elim}
use mathlib.Core.List.{Perm, Permᴰ}
use autobeat.Prelude.Array
use autobeat.PriorityQueue.{HeapNode, should_swap, insert, sort}

-- Every node of the list.
abbrev pub All : (HeapNode → Type 0) → List HeapNode → Type 0
All P [] = Unit
All P (x ∷ xs) = P x × All P xs

-- Nodes inserted at different times, of tasks of different ids.
abbrev pub IsOther : HeapNode → HeapNode → Type 0
IsOther x y = (x.insertion_order ≢ y.insertion_order) × (x.task.id ≢ y.task.id)

abbrev pub IsApart : List HeapNode → Type 0
IsApart [] = Unit
IsApart (x ∷ xs) = All (IsOther x) xs × IsApart xs

IsOther-sym : (x y : HeapNode) → IsOther x y → IsOther y x
IsOther-sym x y (h, k) = (λ e. h (sym e), λ e. k (sym e))

All-permᴰ : (P : HeapNode → Type 0) {a b : List HeapNode} → Permᴰ a b → All P a → All P b
All-permᴰ P Permᴰ.nil h = h
All-permᴰ P (Permᴰ.cons {a = x} {b = y} e p) (h, hs) = (subst P e h, All-permᴰ P p hs)
All-permᴰ P (Permᴰ.swap e e') (h, (k, hs)) = (subst P e' k, (subst P e h, hs))
All-permᴰ P (Permᴰ.trans p q) h = All-permᴰ P q (All-permᴰ P p h)

insert-insert :
    (x y : HeapNode) (l : List HeapNode)
    → x.insertion_order ≢ y.insertion_order
    → insert x (insert y l) ≡ insert y (insert x l)
unfolding insert should_swap
insert-insert x y [] ne = ground arith
insert-insert x y (z ∷ l) ne = ground (arith, insert-insert x y l ne)

IsApart-permᴰ : {a b : List HeapNode} → Permᴰ a b → IsApart a → IsApart b
IsApart-permᴰ Permᴰ.nil h = h
IsApart-permᴰ (Permᴰ.cons {a = x} {b = y} {l₁ = l} {l₂ = m} e p) (h, hs) =
    (subst (λ z. All (IsOther z) m) e (All-permᴰ (IsOther x) p h), IsApart-permᴰ p hs)
IsApart-permᴰ (Permᴰ.swap {a = x} {b = y} {a' = u} {b' = v} {l = l} e e') ((ne, h), (k, hs)) = (
  (
    subst (λ z. IsOther z v) e' (IsOther-sym v y (subst (λ z. IsOther z y) e ne)),
    subst (λ z. All (IsOther z) l) e' k,
  ),
  (subst (λ z. All (IsOther z) l) e h, hs),
)
IsApart-permᴰ (Permᴰ.trans p q) h = IsApart-permᴰ q (IsApart-permᴰ p h)

sort-permᴰ : {a b : List HeapNode} → Permᴰ a b → IsApart a → sort a ≡ sort b
unfolding sort
sort-permᴰ Permᴰ.nil h = refl
sort-permᴰ (Permᴰ.cons {l₂ = m} e p) (h, hs) = rw (sort-permᴰ p hs) (ap (λ z. insert z (sort m)) e)
sort-permᴰ (Permᴰ.swap {a = x} {b = y} {a' = u} {l = l} e e') ((ne, h), (k, hs)) =
    insert-insert x y (sort l) ne.0
    ∙ ap (λ z. insert z (insert x (sort l))) e'
    ∙ ap (λ z. insert u (insert z (sort l))) e
sort-permᴰ (Permᴰ.trans p q) h = sort-permᴰ p h ∙ sort-permᴰ q (IsApart-permᴰ p h)

String-set : IsSet String
String-set = hedberg String-discrete

HeapNode-set : IsSet HeapNode
HeapNode-set = hlevel String-set

nodes-set : IsSet (List HeapNode)
nodes-set = hlevel HeapNode-set

All-prop :
    (P : HeapNode → Type 0)
    → ((y : HeapNode) → IsProp (P y))
    → (l : List HeapNode) → IsProp (All P l)
All-prop P p [] = hlevel
All-prop P p (y ∷ l) = hlevel (p, All-prop P p l)

IsOther-prop : (x y : HeapNode) → IsProp (IsOther x y)
IsOther-prop x y = hlevel

IsApart-prop : (l : List HeapNode) → IsProp (IsApart l)
IsApart-prop [] = hlevel
IsApart-prop (x ∷ l) = hlevel (All-prop (IsOther x) (IsOther-prop x) l, IsApart-prop l)

pub All-perm :
    (P : HeapNode → Type 0)
    → ((y : HeapNode) → IsProp (P y))
    → {a b : List HeapNode} → Perm a b
    → All P a
    → All P b
All-perm P prop {b} p h = ∥∥₁_elim p (All-prop P prop b) (λ d. All-permᴰ P d h)

pub IsApart-perm : {a b : List HeapNode} → Perm a b → IsApart a → IsApart b
IsApart-perm {b} p h = ∥∥₁_elim p (IsApart-prop b) (λ d. IsApart-permᴰ d h)

pub sort-perm : {a b : List HeapNode} → Perm a b → IsApart a → sort a ≡ sort b
sort-perm p h = ∥∥₁_elim p (nodes-set _ _) (λ d. sort-permᴰ d h)

pub All-map :
    (P Q : HeapNode → Type 0) (l : List HeapNode) → ((y : HeapNode) → P y → Q y) → All P l → All Q l
All-map P Q [] f h = tt
All-map P Q (x ∷ l) f (h, hs) = (f x h, All-map P Q l f hs)

module _ (P : HeapNode → Type 0) where
  pub All-at :
      (l : List HeapNode) → ((n : ℕ) (z : HeapNode) → Array.get_elem? l n ≡ some z → P z) → All P l
  All-at [] h = tt
  All-at (x ∷ l) h = (h 0 x refl, All-at l (λ n z e. h (suc n) z e))

  pub at_All :
      (l : List HeapNode) → All P l → (n : ℕ) (z : HeapNode) → Array.get_elem? l n ≡ some z → P z
  at_All [] h n z e = absurd cc
  at_All (x ∷ l) (h, hs) zero z e = subst P (ground arith) h
  at_All (x ∷ l) (h, hs) (suc n) z e = at_All l hs n z e

  All-insert : (x : HeapNode) (l : List HeapNode) → P x → All P l → All P (insert x l)
  unfolding insert
  All-insert x [] h hs = (h, tt)
  All-insert x (y ∷ l) h (k, hs) = elim (Bool-cases (should_swap x y)) [
    | inl after ↦ rw (after, insert) (k, All-insert x l h hs)
    | inr before ↦ rw (before, insert) (h, (k, hs))
  ]

  insert-All : (x : HeapNode) (l : List HeapNode) → All P (insert x l) → P x × All P l
  unfolding insert
  insert-All x [] h = h
  insert-All x (y ∷ l) h = elim (Bool-cases (should_swap x y)) [
    | inl after ↦
        let (k, hs) : P y × All P (insert x l) = rw (after, insert) at h in
        let (i, is) = insert-All x l hs in (i, (k, is))
    | inr before ↦ rw (before, insert) at h
  ]

  pub All-sort : (l : List HeapNode) → All P l → All P (sort l)
  unfolding sort
  All-sort [] h = tt
  All-sort (x ∷ l) (h, hs) = All-insert x (sort l) h (All-sort l hs)

  pub sort-All : (l : List HeapNode) → All P (sort l) → All P l
  unfolding sort
  sort-All [] h = tt
  sort-All (x ∷ l) h = let (k, hs) = insert-All x (sort l) h in (k, sort-All l hs)

insert_before :
    (x : HeapNode) (l : List HeapNode) → All (λ y. should_swap x y ≡ false) l → insert x l ≡ x ∷ l
unfolding insert
insert_before x [] h = refl
insert_before x (y ∷ l) (h, hs) = rw (h, insert) refl

-- A node before which no other comes is the first.
pub insert_first :
    (x : HeapNode) (l : List HeapNode)
    → All (λ y. should_swap x y ≡ false) l
    → insert x (sort l) ≡ x ∷ sort l
insert_first x l h = insert_before x (sort l) (All-sort (λ y. should_swap x y ≡ false) l h)
