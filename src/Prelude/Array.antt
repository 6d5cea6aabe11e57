-- ===== src/Prelude/Array.antt =====
-- A JavaScript array as a list under native indices. Meant to be used qualified: `Array.swap`.
use Prim.Native.Nat.{ℕ, zero, suc, ◌-◌, ◌<◌}
use mathlib.Core.Path.{◌≡◌, refl, ap, ◌∙◌}
use mathlib.Core.Logic.{inl, inr}
use mathlib.Core.Option.{Option, none, some}
use mathlib.Core.List.{List, [], ◌∷◌, ◌++◌}
use native.Mathlib.Omega.{arith}
use mathlib.Core.List.{Perm}
use mathlib.Core.List.Perm
use autobeat.Prelude.Tests.{◌==◌, if◌then◌else◌, Option-cases}
use autobeat.Prelude.Lists.{length}

module _ {ℓ} {A : Type ℓ} where
  -- `a[i]`
  abbrev pub get_elem? : List A → ℕ → Option A
  get_elem? [] at = none
  get_elem? (x ∷ xs) zero = some x
  get_elem? (x ∷ xs) (suc at) = get_elem? xs at

  -- `a[i] = v`, for an index in range.
  abbrev pub set : List A → ℕ → A → List A
  set [] at new = []
  set (x ∷ xs) zero new = new ∷ xs
  set (x ∷ xs) (suc at) new = x ∷ set xs at new

  -- What `a.pop()` leaves.
  abbrev pub init : List A → List A
  init [] = []
  init (x ∷ []) = []
  init (x ∷ y ∷ xs) = x ∷ init (y ∷ xs)

  pub length-set : (xs : List A) (at : ℕ) (new : A) → length (set xs at new) ≡ length xs
  length-set [] at new = refl
  length-set (x ∷ xs) zero new = refl
  length-set (x ∷ xs) (suc at) new = ap suc (length-set xs at new)

  pub length-init : (xs : List A) → length (init xs) ≡ length xs - 1
  length-init [] = omega arith
  length-init (x ∷ []) = omega arith
  length-init (x ∷ y ∷ xs) = omega (arith, length-init (y ∷ xs))

  pub get_elem?-lt : (xs : List A) (at : ℕ) (x : A) → get_elem? xs at ≡ some x → at < length xs
  get_elem?-lt [] at x e = absurd cc
  get_elem?-lt (y ∷ xs) zero x e = omega arith
  get_elem?-lt (y ∷ xs) (suc at) x e = omega (arith, get_elem?-lt xs at x e)

  pub lt-get_elem? : (xs : List A) (at : ℕ) → at < length xs → (x : A) × (get_elem? xs at ≡ some x)
  lt-get_elem? [] at h = absurd (omega arith)
  lt-get_elem? (y ∷ xs) zero h = (y, refl)
  lt-get_elem? (y ∷ xs) (suc at) h = lt-get_elem? xs at (omega arith)

  pub get_elem?-set :
      (xs : List A) (at : ℕ) (new : A) (to : ℕ)
      → at < length xs
      → get_elem? (set xs at new) to ≡ (if at == to then some new else get_elem? xs to)
  get_elem?-set [] at new to h = absurd (omega arith)
  get_elem?-set (x ∷ xs) zero new zero h = refl
  get_elem?-set (x ∷ xs) (suc at) new (suc to) h = ground (arith, get_elem?-set xs at new to)
  get_elem?-set (x ∷ xs) at new to h = ground arith

  pub get_elem?-append :
      (xs : List A) (x : A) (to : ℕ)
      → get_elem? (xs ++ x ∷ []) to ≡ (if length xs == to then some x else get_elem? xs to)
  get_elem?-append [] x zero = refl
  get_elem?-append [] x (suc to) = ground arith
  get_elem?-append (y ∷ xs) x zero = ground arith
  get_elem?-append (y ∷ xs) x (suc to) = ground (arith, get_elem?-append xs x to)

  pub get_elem?-init :
      (xs : List A) (to : ℕ) → suc to < length xs → get_elem? (init xs) to ≡ get_elem? xs to
  get_elem?-init [] to h = absurd (omega arith)
  get_elem?-init (x ∷ []) to h = absurd (omega arith)
  get_elem?-init (x ∷ y ∷ xs) zero h = refl
  get_elem?-init (x ∷ y ∷ xs) (suc to) h = get_elem?-init (y ∷ xs) to (omega arith)

  -- A write trades the old entry for the new one.
  pub set-perm :
      (xs : List A) (at : ℕ) (x new : A)
      → get_elem? xs at ≡ some x
      → Perm (x ∷ set xs at new) (new ∷ xs)
  set-perm [] at x new e = absurd cc
  set-perm (y ∷ xs) zero x new e = let same : y ≡ x = cc in rw (← same) (Perm.swap new y xs)
  set-perm (y ∷ xs) (suc at) x new e =
      Perm.trans (Perm.swap y x (set xs at new))
        (Perm.trans (Perm.cons y (set-perm xs at x new e)) (Perm.swap new y xs))

  pub append-perm : (xs : List A) (x : A) → Perm (xs ++ x ∷ []) (x ∷ xs)
  append-perm [] x = Perm.rfl
  append-perm (y ∷ xs) x = Perm.trans (Perm.cons y (append-perm xs x)) (Perm.swap x y xs)

  -- The last entry and the ones before it.
  pub init-perm :
      (xs : List A) (n : ℕ) (y : A)
      → length xs ≡ suc n
      → get_elem? xs n ≡ some y
      → Perm (y ∷ init xs) xs
  init-perm [] n y size e = absurd cc
  init-perm (x ∷ []) zero y size e = let same : x ≡ y = cc in rw same Perm.rfl
  init-perm (x ∷ []) (suc n) y size e = absurd cc
  init-perm (x ∷ z ∷ xs) zero y size e = absurd (omega (arith, size))
  init-perm (x ∷ z ∷ xs) (suc n) y size e =
      Perm.trans (Perm.swap x y (init (z ∷ xs)))
        (Perm.cons x (init-perm (z ∷ xs) n y (omega (arith, size)) e))

  -- The two entries change places, when both are there.
  unfoldable pub swap : List A → ℕ → ℕ → List A
  swap xs at to = elim (get_elem? xs at) [
    | none ↦ xs
    | some x ↦ elim (get_elem? xs to) [ none ↦ xs | some y ↦ set (set xs at y) to x ]
  ]

  pub swap_there :
      (xs : List A) (at to : ℕ) (x y : A)
      → get_elem? xs at ≡ some x
      → get_elem? xs to ≡ some y
      → swap xs at to ≡ set (set xs at y) to x
  unfolding swap
  swap_there xs at to x y e e' = rw (e, e', swap) refl

  pub get_elem?-swap :
      (xs : List A) (at to : ℕ) (x y : A) (other : ℕ)
      → get_elem? xs at ≡ some x
      → get_elem? xs to ≡ some y
      → get_elem? (swap xs at to) other
        ≡ (if to == other then some x else if at == other then some y else get_elem? xs other)
  get_elem?-swap xs at to x y other e e' =
      let size = length-set xs at y in
      rw (swap_there xs at to x y e e') (
        ground (
          arith,
          get_elem?-set (set xs at y) to x other,
          get_elem?-set xs at y other,
          get_elem?-lt xs at x e,
          get_elem?-lt xs to y e',
        ))

  pub length-swap : (xs : List A) (at to : ℕ) → length (swap xs at to) ≡ length xs
  unfolding swap
  length-swap xs at to = elim (Option-cases (get_elem? xs at)) [
    | inl e ↦ rw (e, swap) refl
    | inr (x, e) ↦ elim (Option-cases (get_elem? xs to)) [
      | inl e' ↦ rw (e, e', swap) refl
      | inr (y, e') ↦ rw (e, e', swap) (length-set (set xs at y) to x ∙ length-set xs at y)
    ]
  ]

  swap_there-perm :
      (xs : List A) (at to : ℕ) (x y : A)
      → get_elem? xs at ≡ some x
      → get_elem? xs to ≡ some y
      → Perm (set (set xs at y) to x) xs
  swap_there-perm xs at to x y e e' =
      let still : get_elem? (set xs at y) to ≡ some y =
        ground (arith, get_elem?-set xs at y to, get_elem?-lt xs at x e) in
      Perm.cons_inv (Perm.trans (set-perm (set xs at y) to y x still) (set-perm xs at x y e))

  pub swap-perm : (xs : List A) (at to : ℕ) → Perm (swap xs at to) xs
  unfolding swap
  swap-perm xs at to = elim (Option-cases (get_elem? xs at)) [
    | inl e ↦ rw (e, swap) Perm.rfl
    | inr (x, e) ↦ elim (Option-cases (get_elem? xs to)) [
      | inl e' ↦ rw (e, e', swap) Perm.rfl
      | inr (y, e') ↦ rw (e, e', swap) (swap_there-perm xs at to x y e e')
    ]
  ]
