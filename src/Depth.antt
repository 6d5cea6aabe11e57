-- ===== src/Depth.antt =====
-- `DependencyGraph.getMaxDepth` of src/core/dependency-graph.ts. The set `currentPath` of the source is
-- written and never read, so it is left out. Fuel as in `Search`; `Depth.Longest` shows that it
-- suffices on an acyclic graph.
pub mod Longest
use autobeat.Prelude.{ℕ, zero, suc, max, String, none, some, List, [], ◌∷◌}
use autobeat.Prelude.Dict
use autobeat.Prelude.Dict.{Dict}
use autobeat.Adjacency.{Adjacency, neighbours}
use autobeat.Search.{fuel_for}
use autobeat.Graph.{DependencyGraph}

-- `for (const dep of deps) maxDepth = Math.max(maxDepth, calculateDepth(dep))`
unfoldable pub max_each : (String → Dict ℕ → ℕ × Dict ℕ) → List String → ℕ → Dict ℕ → ℕ × Dict ℕ
max_each visit [] best memo = (best, memo)
max_each visit (n ∷ ns) best memo =
    let (depth, memo') = visit n memo in max_each visit ns (max best depth) memo'

-- The three returns of `calculateDepth`: a known depth, a leaf, and one more than the best.
unfoldable pub calculate_depth : ℕ → Adjacency → String → Dict ℕ → ℕ × Dict ℕ
unfolding max_each
calculate_depth zero m node memo = (0, memo)
calculate_depth (suc fuel) m node memo = elim (Dict.get memo node) [
  | some known ↦ (known, memo)
  | none ↦ elim (neighbours m node) [
    | [] ↦ (0, Dict.set memo node 0)
    | n ∷ ns ↦
        let (best, memo') = max_each (calculate_depth fuel m) (n ∷ ns) 0 memo in
        (suc best, Dict.set memo' node (suc best))
  ]
]

unfoldable pub get_max_depth : DependencyGraph → String → ℕ
unfolding calculate_depth
get_max_depth g task_id = (calculate_depth (fuel_for g.graph) g.graph task_id []).0
