-- ===== src/Prelude/Sets.antt =====
-- A JavaScript `Set<string>` as the list of its elements in insertion order.
use Prim.Native.Nat.{ℕ, suc, ◌≤◌, ◌<◌}
use Prim.Native.String.{String}
use mathlib.Core.Path.{◌≡◌, refl}
use mathlib.Core.Logic.{◌≢◌, ◌⊎◌, inl, inr, ◌↔◌, ite}
use mathlib.Core.Bool.{Bool, true, false}
use mathlib.Core.List.{List, [], ◌∷◌, ◌++◌, append-nil}
use autobeat.Prelude.Lists.{length}
use native.Mathlib.Omega.{arith}
use text.Mathlib.Text.{◌==◌}
use text.Mathlib.TextEquality.{eq_iff}

dec_of_test : {P : Type 0} (b : Bool) → (b ≡ true) ↔ P → Dec P
dec_of_test true e = yes (e.0 refl)
dec_of_test false e = no (λ p. cc (e.1 p))

unfoldable pub String-discrete : Discrete String
unfolding dec_of_test
String-discrete s t = dec_of_test (s == t) (eq_iff s t)

-- Membership by recursion, which the tactics take apart.
infix 50 ◌∈◌
abbrev pub ◌∈◌ : String → List String → Type 0
x ∈ [] = ⊥
x ∈ (y ∷ ys) = (x ≡ y) ⊎ (x ∈ ys)

unfoldable pub dec_in : (x : String) (xs : List String) → Dec (x ∈ xs)
unfolding String-discrete
dec_in x [] = no (λ h. h)
dec_in x (y ∷ ys) = elim (String-discrete x y) [
  | yes e ↦ yes (inl e)
  | no ne ↦ elim (dec_in x ys) [
    | yes h ↦ yes (inr h)
    | no nh ↦ no (elim [ inl e ↦ ne e | inr h ↦ nh h ])
  ]
]

-- `Set.prototype.add`
unfoldable pub add : List String → String → List String
unfolding dec_in
add xs x = ite (dec_in x xs) xs (xs ++ x ∷ [])

-- `Set.prototype.delete`
unfoldable pub delete : List String → String → List String
unfolding String-discrete
delete [] x = []
delete (y ∷ ys) x = ite (String-discrete x y) (delete ys x) (y ∷ delete ys x)

pub ∈-append : (x : String) (xs ys : List String) → (x ∈ (xs ++ ys)) ↔ ((x ∈ xs) ⊎ (x ∈ ys))
∈-append x [] ys = (inr, elim [ inl h ↦ absurd h | inr h ↦ h ])
∈-append x (y ∷ xs) ys = ground (arith, ∈-append x xs ys)

pub ∈-add : (x : String) (xs : List String) (y : String) → (x ∈ add xs y) ↔ ((x ∈ xs) ⊎ (x ≡ y))
unfolding add
∈-add x xs y = ground (arith, ∈-append x xs (y ∷ []))

pub ∈-add_old : (x : String) (xs : List String) (y : String) → x ∈ xs → x ∈ add xs y
∈-add_old x xs y h = (∈-add x xs y).1 (inl h)

pub ∈-add_new : (xs : List String) (y : String) → y ∈ add xs y
∈-add_new xs y = (∈-add y xs y).1 (inr refl)

pub ∈-delete :
    (x : String) (xs : List String) (y : String) → (x ∈ delete xs y) ↔ ((x ∈ xs) × (x ≢ y))
unfolding delete
∈-delete x [] y = ground arith
∈-delete x (z ∷ xs) y = ground (arith, ∈-delete x xs y)

delete_absent : (xs : List String) (y : String) → ¬ (y ∈ xs) → delete xs y ≡ xs
unfolding delete
delete_absent [] y h = refl
delete_absent (z ∷ xs) y h = ground (arith, delete_absent xs y)

delete-append :
    (xs ys : List String) (y : String) → delete (xs ++ ys) y ≡ delete xs y ++ delete ys y
unfolding delete
delete-append [] ys y = refl
delete-append (z ∷ xs) ys y = ground (arith, delete-append xs ys y)

delete_single : (y : String) → delete (y ∷ []) y ≡ []
unfolding delete
delete_single y = ground arith

-- A stack is restored by the removal of what was pushed.
pub delete-add : (xs : List String) (y : String) → ¬ (y ∈ xs) → delete (add xs y) y ≡ xs
unfolding add
delete-add xs y h =
    ground (arith, delete-append xs (y ∷ []) y, delete_absent xs y, delete_single y, append-nil xs)

-- How many of the keys are not yet in the set.
pub keys_left : List String → List String → ℕ
keys_left [] vis = 0
keys_left (k ∷ ks) vis = let rest = keys_left ks vis in ite (dec_in k vis) rest (suc rest)

pub keys_left_mono :
    (ks v w : List String) → ((x : String) → x ∈ v → x ∈ w) → keys_left ks w ≤ keys_left ks v
unfolding keys_left
keys_left_mono [] v w h = omega arith
keys_left_mono (k ∷ ks) v w h = ground (arith, keys_left_mono ks v w h, h k)

pub keys_left-add :
    (ks vis : List String) (k : String)
    → k ∈ ks
    → ¬ (k ∈ vis)
    → keys_left ks (add vis k) < keys_left ks vis
unfolding keys_left
keys_left-add [] vis k h n = absurd h
keys_left-add (j ∷ ks) vis k h n = ground (
  arith,
  ∈-add j vis k,
  keys_left-add ks vis k,
  keys_left_mono ks vis (add vis k) (λ x. ∈-add_old x vis k),
)

pub keys_left-le : (ks vis : List String) → keys_left ks vis ≤ length ks
unfolding keys_left
keys_left-le [] vis = omega arith
keys_left-le (k ∷ ks) vis = ground (arith, keys_left-le ks vis)

-- No element stands twice.
abbrev pub Distinct : List String → Type 0
Distinct [] = Unit {0}
Distinct (x ∷ xs) = (¬ (x ∈ xs)) × Distinct xs

Distinct-concat :
    (xs : List String) (y : String) → Distinct xs → ¬ (y ∈ xs) → Distinct (xs ++ y ∷ [])
Distinct-concat [] y d n = (λ h. h, tt)
Distinct-concat (x ∷ xs) y d n = ground (arith, ∈-append x xs (y ∷ []), Distinct-concat xs y d.1)

pub add-Distinct : (xs : List String) (y : String) → Distinct xs → Distinct (add xs y)
unfolding add
add-Distinct xs y d = ground (arith, Distinct-concat xs y d)

pub delete-Distinct : (xs : List String) (y : String) → Distinct xs → Distinct (delete xs y)
unfolding delete
delete-Distinct [] y d = tt
delete-Distinct (x ∷ xs) y d = ground (arith, ∈-delete x xs y, delete-Distinct xs y d.1)
