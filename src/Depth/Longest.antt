-- ===== src/Depth/Longest.antt =====
-- `getMaxDepth` is the length of the longest chain of dependencies.
use autobeat.Prelude.{
  ℕ, zero, suc, max, ◌≤◌, ◌<◌, String, none, some, List, [], ◌∷◌, ◌≡◌, refl, ◌⊎◌, inl, inr, ◌∈◌,
  arith, add, ∈-add, keys_left, keys_left-add, keys_left-le, subst, Option-cases, List-cases,
  dec_lt, sym, ◌∙◌,
}
use autobeat.Prelude.Dict
use autobeat.Prelude.Dict.{Dict, keys}
use autobeat.Adjacency.{Adjacency, neighbours}
use autobeat.Adjacency.Paths.{Reaches, edge, Reaches-snoc, IsAcyclic}
use autobeat.Search.{fuel_for}
use autobeat.Search.Collect.{neighbours-keys}
use autobeat.Graph.{DependencyGraph}
use autobeat.Depth.{max_each, calculate_depth, get_max_depth}

-- A chain of the given number of edges starts here.
pub data Chain (m : Adjacency) : String → ℕ → Type 0 where
  stop : {x : String} → Chain m x zero
  link : {x y : String} {n : ℕ} → y ∈ neighbours m x → Chain m y n → Chain m x (suc n)

max-cases : (a b : ℕ) → (max a b ≡ a) ⊎ (max a b ≡ b)
max-cases a b = elim (dec_lt a b) [ yes h ↦ inr (omega arith) | no h ↦ inl (omega arith) ]

-- The branches of `calculateDepth`.
module _ (fuel : ℕ) (m : Adjacency) (x : String) (memo : Dict ℕ) where
  depth_known : (d : ℕ) → Dict.get memo x ≡ some d → calculate_depth (suc fuel) m x memo ≡ (d, memo)
  unfolding calculate_depth
  depth_known d e = ground arith

  depth_leaf :
      Dict.get memo x ≡ none
      → neighbours m x ≡ []
      → calculate_depth (suc fuel) m x memo ≡ (0, Dict.set memo x 0)
  unfolding calculate_depth
  depth_leaf e leaf = ground arith

  depth_inner :
      (n : String) (ns : List String)
      → Dict.get memo x ≡ none
      → neighbours m x ≡ n ∷ ns
      → let r = max_each (calculate_depth fuel m) (n ∷ ns) 0 memo in
        calculate_depth (suc fuel) m x memo ≡ (suc r.0, Dict.set r.1 x (suc r.0))
  unfolding calculate_depth
  depth_inner n ns e inner = ground arith

module _ (m : Adjacency) where
  pub record IsDepth (x : String) (d : ℕ) : Type 0 where
    pub attained : Chain m x d
    pub longest : (n : ℕ) → Chain m x n → n ≤ d

  abbrev IsMemo : Dict ℕ → Type 0
  IsMemo memo = (k : String) (d : ℕ) → Dict.get memo k ≡ some d → IsDepth k d

  set-IsMemo :
      (memo : Dict ℕ) (k : String) (d : ℕ) → IsMemo memo → IsDepth k d → IsMemo (Dict.set memo k d)
  set-IsMemo memo k d ok v j e found = elim cases [
    | inl (same, eq) ↦ rw (same, eq) v
    | inr old ↦ ok j e old
  ]
    where
      cases : ((j ≡ k) × (e ≡ d)) ⊎ (Dict.get memo j ≡ some e)
      cases = ground (arith, Dict.get-set memo k d j)

  -- A correct answer for a node, and a table that stays correct.
  abbrev Measures : ℕ → (String → Dict ℕ → ℕ × Dict ℕ) → Type 0
  Measures fuel visit =
      (x : String) (seen : List String) (memo : Dict ℕ)
      → ((c : String) → c ∈ seen → Reaches m c x)
      → keys_left (keys m) seen < fuel
      → IsMemo memo
      → IsDepth x (visit x memo).0 × IsMemo (visit x memo).1

  record IsBest (ns : List String) (before : ℕ) (r : ℕ × Dict ℕ) : Type 0 where
    grows : before ≤ r.0
    source : (r.0 ≡ before) ⊎ ((n : String) × (n ∈ ns) × Chain m n r.0)
    bounds : (n : String) → n ∈ ns → (k : ℕ) → Chain m n k → k ≤ r.0
    memo_kept : IsMemo r.1

  module _ (fuel : ℕ) (visit : String → Dict ℕ → ℕ × Dict ℕ) (ok : Measures fuel visit)
      (seen : List String) (room : keys_left (keys m) seen < fuel) where
    max_each-IsBest :
        (ns : List String) (best : ℕ) (memo : Dict ℕ)
        → ((n c : String) → n ∈ ns → c ∈ seen → Reaches m c n)
        → IsMemo memo
        → IsBest ns best (max_each visit ns best memo)
    unfolding max_each
    max_each-IsBest [] best memo on v = record {
      grows = omega arith;
      source = inl refl;
      bounds = λ n h. absurd h;
      memo_kept = v;
    }
    max_each-IsBest (n ∷ ns) best memo on v =
        let (d, v') = ok n seen memo (λ c. on n c (inl refl)) room v in
        let (depth, memo') = visit n memo in
        let rest = max_each-IsBest ns (max best depth) memo' (λ k c h. on k c (inr h)) v' in
        let top = max_each visit ns (max best depth) memo' in
        record {
          grows = omega (arith, rest.grows);
          source = elim rest.source [
            | inr (k, h, c) ↦ inr (k, inr h, c)
            | inl e ↦ elim (max-cases best depth) [
              | inl same ↦ inl (e ∙ same)
              | inr new ↦ inr (n, inl refl, subst (Chain m n) (sym (e ∙ new)) d.attained)
            ]
          ];
          bounds = λ k h j c. elim h [
            | inr l ↦ rest.bounds k l j c
            | inl same ↦ omega (arith, d.longest j (subst (λ z. Chain m z j) same c), rest.grows)
          ];
          memo_kept = rest.memo_kept;
        }

  module _ (acyclic : IsAcyclic m) where
    -- The node's own entry, once the answers for its neighbours are known.
    IsBest-IsDepth :
        (x n : String) (ns : List String) (r : ℕ × Dict ℕ)
        → neighbours m x ≡ n ∷ ns
        → IsBest (n ∷ ns) 0 r
        → IsDepth x (suc r.0)
    IsBest-IsDepth x n ns r e b = record { attained = reach; longest = top }
      where
        into : (k : String) → k ∈ (n ∷ ns) → k ∈ neighbours m x
        into k h = subst (λ l. k ∈ l) (sym e) h

        reach : Chain m x (suc r.0)
        reach = elim b.source [
          | inl none_longer ↦ link (into n (inl refl)) (subst (Chain m n) (sym none_longer) stop)
          | inr (k, h, c) ↦ link (into k h) c
        ]

        top : (k : ℕ) → Chain m x k → k ≤ suc r.0
        top _ stop = omega arith
        top _ (link {y = y} {n = j} h c) = omega (arith, b.bounds y (subst (λ l. y ∈ l) e h) j c)

    leaf-IsDepth : (x : String) → neighbours m x ≡ [] → IsDepth x 0
    leaf-IsDepth x e = record { attained = stop; longest = top }
      where
        top : (k : ℕ) → Chain m x k → k ≤ 0
        top _ stop = omega arith
        top _ (link {y = y} h c) = absurd (subst (λ l. y ∈ l) e h)

    not-seen :
        (x : String) (seen : List String) → ((c : String) → c ∈ seen → Reaches m c x) → ¬ (x ∈ seen)
    not-seen x seen on h = acyclic x (on x h)

    inner-IsDepth :
        (fuel : ℕ)
        → Measures fuel (calculate_depth fuel m)
        → (x : String) (seen : List String) (memo : Dict ℕ)
        → ((c : String) → c ∈ seen → Reaches m c x)
        → keys_left (keys m) seen < suc fuel
        → IsMemo memo
        → (n : String) (ns : List String) → neighbours m x ≡ n ∷ ns
        → let r = max_each (calculate_depth fuel m) (n ∷ ns) 0 memo in
          IsDepth x (suc r.0) × IsMemo (Dict.set r.1 x (suc r.0))
    inner-IsDepth fuel ok x seen memo on room v n ns e =
        let into : (k : String) → k ∈ (n ∷ ns) → k ∈ neighbours m x =
          λ k h. subst (λ l. k ∈ l) (sym e) h in
        let key : x ∈ keys m = neighbours-keys m x n (into n (inl refl)) in
        let fewer : keys_left (keys m) (add seen x) < fuel =
          omega (arith, keys_left-add (keys m) seen x key (not-seen x seen on)) in
        let best =
          max_each-IsBest fuel (calculate_depth fuel m) ok (add seen x) fewer (n ∷ ns) 0 memo
            (λ k c h j. elim ((∈-add c seen x).0 j) [
              | inl old ↦ Reaches-snoc (on c old) (into k h)
              | inr same ↦ subst (λ z. Reaches m z k) (sym same) (edge (into k h))
            ])
            v in
        let d = IsBest-IsDepth x n ns (max_each (calculate_depth fuel m) (n ∷ ns) 0 memo) e best in
        (d, set-IsMemo _ x _ best.memo_kept d)

    calculate-Measures : (fuel : ℕ) → Measures fuel (calculate_depth fuel m)
    calculate-Measures zero x seen memo on room v = absurd (omega arith)
    calculate-Measures (suc fuel) x seen memo on room v = elim (Option-cases (Dict.get memo x)) [
      | inr (d, e) ↦ rw (depth_known fuel m x memo d e) (v x d e, v)
      | inl e ↦ elim (List-cases (neighbours m x)) [
        | inl leaf ↦
            rw (depth_leaf fuel m x memo e leaf)
              (leaf-IsDepth x leaf, set-IsMemo memo x 0 v (leaf-IsDepth x leaf))
        | inr (n, ns, inner) ↦
            rw (depth_inner fuel m x memo n ns e inner)
              (inner-IsDepth fuel (calculate-Measures fuel) x seen memo on room v n ns inner)
      ]
    ]

no-entry : (k : String) (d : ℕ) → ¬ (Dict.get {V = ℕ} [] k ≡ some d)
unfolding Dict.get
no-entry k d e = cc

-- On an acyclic graph `getMaxDepth` is the length of the longest chain of dependencies that starts at
-- the task: there is a chain of that length, and none is longer.
pub get_max_depth-IsDepth :
    (g : DependencyGraph) (t : String) → IsAcyclic g.graph → IsDepth g.graph t (get_max_depth g t)
unfolding get_max_depth
get_max_depth-IsDepth g t acyclic =
    (calculate-Measures g.graph acyclic (fuel_for g.graph) t [] [] (λ c h. absurd h)
      (omega (arith, keys_left-le (keys g.graph) [])) (λ k d e. absurd (no-entry k d e))).0
