-- ===== src/Search.antt =====
-- The depth-first searches of src/core/dependency-graph.ts over one adjacency list. They recurse
-- without a bound in the source and take fuel here, one more than there are keys: the children
-- show that it suffices.
pub mod Collect
pub mod Detect
pub mod Verdict
use autobeat.Prelude.{
  ℕ, zero, suc, String, Bool, true, false, Option, none, some, List, [], ◌∷◌, ite, length, add,
  delete, dec_in, String-discrete, ◌≡◌, ◌≢◌, if◌then◌else◌,
}
use autobeat.Prelude.Dict.{keys}
use autobeat.Adjacency.{Adjacency, neighbours}

-- `collectTransitiveNodes`: its two sets, its inner function, and its call.
pub record Walk : Type 0 where
  pub visited : List String
  pub result : List String

-- `for (const neighbor of neighbors) { result.add(neighbor); collect(neighbor); }`
unfoldable pub collect_each : (String → Walk → Walk) → List String → Walk → Walk
collect_each visit [] w = w
collect_each visit (n ∷ ns) w =
    collect_each visit ns (visit n (record w { result = add w.result n }))

unfoldable pub collect : ℕ → Adjacency → String → Walk → Walk
unfolding collect_each
collect zero m node w = w
collect (suc fuel) m node w =
    let entered = record w { visited = add w.visited node } in
    let rest = collect_each (collect fuel m) (neighbours m node) entered in
    ite (dec_in node w.visited) w rest

abbrev pub fuel_for : Adjacency → ℕ
fuel_for m = suc (length (keys m))

unfoldable pub collect_transitive_nodes : String → Adjacency → List String
unfolding collect
collect_transitive_nodes start m =
    (collect (fuel_for m) m start (record { visited = []; result = [] })).result

-- `detectCycleDFS`: its two sets, its test of the target (an empty one counts as none), its loop.
pub record Search : Type 0 where
  pub visited : List String
  pub stack : List String

abbrev pub IsTarget : Option String → String → Type 0
IsTarget none node = ⊥
IsTarget (some t) node = (node ≡ t) × (t ≢ "")

unfoldable pub dec_target : (target : Option String) (node : String) → Dec (IsTarget target node)
unfolding String-discrete
dec_target none node = no (λ h. h)
dec_target (some t) node = elim (String-discrete node t) [
  | no ne ↦ no (λ h. ne h.0)
  | yes e ↦ elim (String-discrete t "") [
    | yes empty ↦ no (λ h. h.1 empty)
    | no full ↦ yes (e, full)
  ]
]

unfoldable pub detect_each :
    (String → Search → Bool × Search) → List String → Search → Bool × Search
detect_each visit [] s = (false, s)
detect_each visit (n ∷ ns) s =
    let (found, s') = visit n s in
    let rest = detect_each visit ns s' in if found then (true, s') else rest

unfoldable pub detect_cycle_dfs : ℕ → Adjacency → Option String → String → Search → Bool × Search
unfolding detect_each dec_target
detect_cycle_dfs zero m target node s = (true, s)
detect_cycle_dfs (suc fuel) m target node s =
    let entered : Search = record { visited = add s.visited node; stack = add s.stack node } in
    let (found, s') = detect_each (detect_cycle_dfs fuel m target) (neighbours m node) entered in
    let left : Bool × Search =
      if found then (true, s') else (false, record s' { stack = delete s'.stack node }) in
    ite (dec_target target node) (true, s)
      (ite (dec_in node s.stack) (true, s) (ite (dec_in node s.visited) (false, s) left))

-- The loop of `hasCycle` over the keys.
unfoldable pub has_cycle_from : Adjacency → List String → Search → Bool
has_cycle_from m [] s = false
has_cycle_from m (k ∷ ks) s =
    let (found, s') = detect_cycle_dfs (fuel_for m) m none k s in
    let skip = has_cycle_from m ks s in
    let rest = has_cycle_from m ks s' in
    ite (dec_in k s.visited) skip (if found then true else rest)
