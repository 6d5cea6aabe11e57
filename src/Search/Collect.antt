-- ===== src/Search/Collect.antt =====
-- `collectTransitiveNodes` finds what can be reached, no more and no less.
use autobeat.Prelude.{
  ℕ, zero, suc, ◌<◌, String, List, [], ◌∷◌, ◌≡◌, refl, ◌⊎◌, inl, inr, ◌↔◌, ◌∈◌, arith, dec_in, add,
  ∈-add, ∈-add_old, ∈-add_new, keys_left, keys_left_mono, keys_left-add, keys_left-le, subst,
  Option-cases,
}
use autobeat.Prelude.Dict
use autobeat.Prelude.Dict.{keys}
use autobeat.Adjacency.{Adjacency, neighbours}
use autobeat.Adjacency.Paths.{Reaches, edge, step}
use autobeat.Search.{Walk, collect_each, collect, fuel_for, collect_transitive_nodes}

-- Only a key has neighbours.
pub neighbours-keys : (m : Adjacency) (x y : String) → y ∈ neighbours m x → x ∈ keys m
unfolding neighbours
neighbours-keys m x y h = elim (Option-cases (Dict.get m x)) [
  | inl e ↦ ground arith
  | inr (xs, e) ↦ Dict.keys-get m x xs e
]

abbrev enter : Walk → String → Walk
enter w x = record w { visited = add w.visited x }

module _ (fuel : ℕ) (m : Adjacency) (x : String) (w : Walk) where
  collect_old : x ∈ w.visited → collect (suc fuel) m x w ≡ w
  unfolding collect
  collect_old h = ground arith

  collect_new :
      ¬ (x ∈ w.visited)
      → collect (suc fuel) m x w ≡ collect_each (collect fuel m) (neighbours m x) (enter w x)
  unfolding collect
  collect_new h = ground arith

module _ (m : Adjacency) where
  -- A node that was found was found before, or is reachable.
  abbrev Finds : (String → Walk → Walk) → Type 0
  Finds visit = (x y : String) (w : Walk) → y ∈ (visit x w).result → (y ∈ w.result) ⊎ Reaches m x y

  collect_each-Finds :
      (visit : String → Walk → Walk)
      → Finds visit
      → (x y : String) (ns : List String) (w : Walk) → ((n : String) → n ∈ ns → n ∈ neighbours m x)
      → y ∈ (collect_each visit ns w).result
      → (y ∈ w.result) ⊎ Reaches m x y
  unfolding collect_each
  collect_each-Finds visit f x y [] w sub h = inl h
  collect_each-Finds visit f x y (n ∷ ns) w sub h =
      elim (collect_each-Finds visit f x y ns _ (λ k l. sub k (inr l)) h) [
        | inr r ↦ inr r
        | inl old ↦ elim (f n y _ old) [
          | inr r ↦ inr (step (sub n (inl refl)) r)
          | inl older ↦ elim ((∈-add y w.result n).0 older) [
            | inl o ↦ inl o
            | inr e ↦ inr (edge (sub y (inl e)))
          ]
        ]
      ]

  collect-Finds_step : (fuel : ℕ) → Finds (collect fuel m) → Finds (collect (suc fuel) m)
  collect-Finds_step fuel f x y w h = elim (dec_in x w.visited) [
    | yes old ↦ inl (rw (collect_old fuel m x w old) at h)
    | no new ↦
        collect_each-Finds (collect fuel m) f x y (neighbours m x) (enter w x) (λ n l. l)
          (rw (collect_new fuel m x w new) at h)
  ]

  collect-Finds : (fuel : ℕ) → Finds (collect fuel m)
  unfolding collect
  collect-Finds zero x y w h = inl h
  collect-Finds (suc fuel) x y w h = collect-Finds_step fuel (collect-Finds fuel) x y w h

  -- All neighbours of the node are in both sets.
  abbrev IsDone : Walk → String → Type 0
  IsDone w x = (y : String) → y ∈ neighbours m x → (y ∈ w.result) × (y ∈ w.visited)

  record Explored (w v : Walk) : Type 0 where
    visited_kept : (x : String) → x ∈ w.visited → x ∈ v.visited
    result_kept : (x : String) → x ∈ w.result → x ∈ v.result
    new_done : (x : String) → x ∈ v.visited → (x ∈ w.visited) ⊎ IsDone v x

  Explored-refl : (w : Walk) → Explored w w
  Explored-refl w = record {
    visited_kept = λ x h. h;
    result_kept = λ x h. h;
    new_done = λ x h. inl h;
  }

  Explored-trans : {u v w : Walk} → Explored u v → Explored v w → Explored u w
  Explored-trans a b = record {
    visited_kept = λ x h. b.visited_kept x (a.visited_kept x h);
    result_kept = λ x h. b.result_kept x (a.result_kept x h);
    new_done = λ x h. elim (b.new_done x h) [
      | inr d ↦ inr d
      | inl h' ↦ elim (a.new_done x h') [
        | inl o ↦ inl o
        | inr d ↦ inr (λ y l. (b.result_kept y (d y l).0, b.visited_kept y (d y l).1))
      ]
    ];
  }

  abbrev left : Walk → ℕ
  left w = keys_left (keys m) w.visited

  abbrev Explores : ℕ → (String → Walk → Walk) → Type 0
  Explores fuel visit =
      (x : String) (w : Walk) → left w < fuel → Explored w (visit x w) × (x ∈ (visit x w).visited)

  collect_each-Explores :
      (fuel : ℕ) (visit : String → Walk → Walk)
      → Explores fuel visit
      → (ns : List String) (w : Walk) → left w < fuel
      → Explored w (collect_each visit ns w)
        × ((n : String)
            → n ∈ ns
            → (n ∈ (collect_each visit ns w).result) × (n ∈ (collect_each visit ns w).visited))
  unfolding collect_each
  collect_each-Explores fuel visit e [] w lt = (Explored-refl w, λ n h. absurd h)
  collect_each-Explores fuel visit e (n ∷ ns) w lt =
      let w' : Walk = record w { result = add w.result n } in
      let first : Explored w w' = record {
        visited_kept = λ x h. h;
        result_kept = λ x h. ∈-add_old x w.result n h;
        new_done = λ x h. inl h;
      } in
      let (second, here) = e n w' lt in
      let third = collect_each-Explores fuel visit e ns (visit n w') (
        omega
          (arith, keys_left_mono (keys m) w.visited (visit n w').visited second.visited_kept)) in
      (
        Explored-trans first (Explored-trans second third.0),
        λ k h. elim h [
          | inr l ↦ third.1 k l
          | inl same ↦ rw same (
            third.0.result_kept n (second.result_kept n (∈-add_new w.result n)),
            third.0.visited_kept n here,
          )
        ],
      )

  -- The loop over the neighbours runs with the fuel that is left, or has nothing to do.
  each-Explored :
      (fuel : ℕ)
      → Explores fuel (collect fuel m)
      → (x : String) (w : Walk) → left w < suc fuel
      → ¬ (x ∈ w.visited)
      → (ns : List String) → ns ≡ neighbours m x
      → Explored (enter w x) (collect_each (collect fuel m) ns (enter w x))
        × ((n : String)
            → n ∈ ns
            → (n ∈ (collect_each (collect fuel m) ns (enter w x)).result)
              × (n ∈ (collect_each (collect fuel m) ns (enter w x)).visited))
  unfolding collect_each
  each-Explored fuel e x w lt new [] same = (Explored-refl (enter w x), λ n h. absurd h)
  each-Explored fuel e x w lt new (n ∷ ns) same =
      let key : x ∈ keys m = neighbours-keys m x n (subst (λ l. n ∈ l) same (inl refl)) in
      collect_each-Explores fuel (collect fuel m) e (n ∷ ns) (enter w x)
        (omega (arith, keys_left-add (keys m) w.visited x key new))

  explore_new :
      (fuel : ℕ)
      → Explores fuel (collect fuel m)
      → (x : String) (w : Walk) → left w < suc fuel
      → ¬ (x ∈ w.visited)
      → let v = collect_each (collect fuel m) (neighbours m x) (enter w x) in
        Explored w v × (x ∈ v.visited)
  explore_new fuel e x w lt new =
      let v = collect_each (collect fuel m) (neighbours m x) (enter w x) in
      let (after, all) = each-Explored fuel e x w lt new (neighbours m x) refl in
      let here : x ∈ v.visited = after.visited_kept x (∈-add_new w.visited x) in
      (
        record {
          visited_kept = λ y h. after.visited_kept y (∈-add_old y w.visited x h);
          result_kept = after.result_kept;
          new_done = λ y h. elim (after.new_done y h) [
            | inr d ↦ inr d
            | inl o ↦ elim ((∈-add y w.visited x).0 o) [
              | inl old ↦ inl old
              | inr same ↦ inr (rw same all)
            ]
          ];
        },
        here,
      )

  collect-Explores_step :
      (fuel : ℕ) → Explores fuel (collect fuel m) → Explores (suc fuel) (collect (suc fuel) m)
  collect-Explores_step fuel e x w lt = elim (dec_in x w.visited) [
    | yes old ↦ rw (collect_old fuel m x w old) (Explored-refl w, old)
    | no new ↦ rw (collect_new fuel m x w new) (explore_new fuel e x w lt new)
  ]

  collect-Explores : (fuel : ℕ) → Explores fuel (collect fuel m)
  collect-Explores zero x w lt = absurd (omega arith)
  collect-Explores (suc fuel) x w lt = collect-Explores_step fuel (collect-Explores fuel) x w lt

  -- From an empty start every node that was visited is done.
  Done-Reaches :
      (w : Walk)
      → ((x : String) → x ∈ w.visited → IsDone w x)
      → {x y : String} → Reaches m x y
      → x ∈ w.visited
      → y ∈ w.result
  Done-Reaches w d (edge h) v = (d _ v _ h).0
  Done-Reaches w d (step h p) v = Done-Reaches w d p (d _ v _ h).1

  pub ∈-collect_transitive_nodes :
      (x y : String) → (y ∈ collect_transitive_nodes x m) ↔ Reaches m x y
  unfolding collect_transitive_nodes
  ∈-collect_transitive_nodes x y =
      let start : Walk = record { visited = []; result = [] } in
      let (after, here) =
        collect-Explores (fuel_for m) x start (omega (arith, keys_left-le (keys m) [])) in
      let done : (z : String)
          → z ∈ (collect (fuel_for m) m x start).visited
          → IsDone (collect (fuel_for m) m x start) z =
        λ z h. elim (after.new_done z h) [ inl none_yet ↦ absurd none_yet | inr d ↦ d ] in
      (
        λ h. elim (collect-Finds (fuel_for m) x y start h) [
          | inl none_yet ↦ absurd none_yet
          | inr r ↦ r
        ],
        λ r. Done-Reaches (collect (fuel_for m) m x start) done r here,
      )
