-- ===== src/Adjacency/Edits.antt =====
-- What each edit does to the edges.
use autobeat.Prelude.{
  String, List, [], ◌∷◌, add, delete, ◌≡◌, ◌⊎◌, inl, inr, ite, ◌∈◌, ◌↔◌, arith, String-discrete,
  ∈-add, ∈-delete, Option-cases,
}
use autobeat.Prelude.Dict
use autobeat.Adjacency.{
  Adjacency, neighbours, ensure, link, put_back, unlink, drop_phantom, unlink_all,
}

neighbours-set :
    (m : Adjacency) (k : String) (xs : List String) (j : String)
    → neighbours (Dict.set m k xs) j ≡ ite (String-discrete j k) xs (neighbours m j)
unfolding neighbours
neighbours-set m k xs j = ground (arith, Dict.get-set m k xs j)

pub neighbours-delete :
    (m : Adjacency) (k j : String)
    → neighbours (Dict.delete m k) j ≡ ite (String-discrete j k) [] (neighbours m j)
unfolding neighbours
neighbours-delete m k j = ground (arith, Dict.get-delete m k j)

pub neighbours-ensure : (m : Adjacency) (k j : String) → neighbours (ensure m k) j ≡ neighbours m j
unfolding ensure neighbours
neighbours-ensure m k j = ground (arith, Dict.get-set m k [] j)

pub neighbours-link :
    (m : Adjacency) (k x j : String)
    → neighbours (link m k x) j
      ≡ ite (String-discrete j k) (add (neighbours m k) x) (neighbours m j)
unfolding link
neighbours-link m k x j = ground (
  arith,
  neighbours-set (ensure m k) k (add (neighbours (ensure m k) k) x) j,
  neighbours-ensure m k j,
  neighbours-ensure m k k,
)

neighbours-put_back :
    (m : Adjacency) (k : String) (xs : List String) (j : String)
    → neighbours (put_back m k xs) j ≡ ite (String-discrete j k) xs (neighbours m j)
unfolding put_back
neighbours-put_back m k [] j = neighbours-delete m k j
neighbours-put_back m k (x ∷ xs) j = neighbours-set m k (x ∷ xs) j

pub neighbours-unlink :
    (m : Adjacency) (k x j : String)
    → neighbours (unlink m k x) j
      ≡ ite (String-discrete j k) (delete (neighbours m k) x) (neighbours m j)
unfolding unlink neighbours delete
neighbours-unlink m k x j = elim (Option-cases (Dict.get m k)) [
  | inl e ↦ ground arith
  | inr (xs, e) ↦ ground (arith, neighbours-put_back m k (delete xs x) j)
]

pub neighbours-drop_phantom :
    (m : Adjacency) (k j : String) → neighbours (drop_phantom m k) j ≡ neighbours m j
unfolding drop_phantom neighbours
neighbours-drop_phantom m k j = ground (arith, Dict.get-delete m k j)

module _ (m : Adjacency) (k x j y : String) where
  pub ∈-link : (y ∈ neighbours (link m k x) j) ↔ ((y ∈ neighbours m j) ⊎ ((j ≡ k) × (y ≡ x)))
  ∈-link = ground (arith, neighbours-link m k x j, ∈-add y (neighbours m k) x)

  pub ∈-unlink : (y ∈ neighbours (unlink m k x) j) ↔ ((y ∈ neighbours m j) × ¬ ((j ≡ k) × (y ≡ x)))
  ∈-unlink = ground (arith, neighbours-unlink m k x j, ∈-delete y (neighbours m k) x)

pub ∈-unlink_all :
    (m : Adjacency) (ks : List String) (x j y : String)
    → (y ∈ neighbours (unlink_all m ks x) j) ↔ ((y ∈ neighbours m j) × ¬ ((j ∈ ks) × (y ≡ x)))
unfolding unlink_all
∈-unlink_all m [] x j y = ground arith
∈-unlink_all m (k ∷ ks) x j y =
    ground (arith, ∈-unlink m k x j y, ∈-unlink_all (unlink m k x) ks x j y)
