-- ===== src/Dependencies/Limits.antt =====
-- What every delegated task leaves behind: a graph without cycles, chains within the limit, and
-- nothing at all when it is refused.
use autobeat.Prelude.{ℕ, ◌≤◌, String, List, none, ◌≡◌, ◌⊎◌, inl, ◌∈◌, arith, map}
use autobeat.Adjacency.{neighbours}
use autobeat.Adjacency.Paths.{Reaches, IsAcyclic}
use autobeat.Result.{err, ErrorCode}
use autobeat.Graph.{DependencyGraph}
use autobeat.Graph.Acyclic.{would_create_cycle_iff}
use autobeat.Depth.Longest.{Chain, get_max_depth-IsDepth}
use autobeat.Dependencies.{
  Handler, emit, dependency_failed, new_row, find_failure, update_graph_after_persistence,
  handle_task_delegated,
}
use autobeat.Dependencies.Batch.{batch-IsAcyclic, Chain-le}
use autobeat.Dependencies.Delegated.{
  idle, refused, accepted, delegated-Ends, find_failure-none, update-IsBatch,
}

module _ (g : DependencyGraph) (limit : ℕ) (t : String) (ds : List String)
    (acyclic : IsAcyclic g.graph) (passed : find_failure g limit t ds ≡ none) where
  abbrev grown : DependencyGraph
  grown = update_graph_after_persistence g (map (new_row t) ds)

  free : (d : String) → d ∈ ds → ¬ ((t ≡ d) ⊎ Reaches g.graph d t)
  free d h c =
      let e = (find_failure-none g limit t ds passed d h).0 in
      cc (e, (would_create_cycle_iff g t d acyclic).1 c)

  grown-IsAcyclic : IsAcyclic grown.graph
  grown-IsAcyclic = batch-IsAcyclic g.graph grown.graph t ds (update-IsBatch g t ds) acyclic free

  grown-Chain-le :
      ((x : String) → ¬ (t ∈ neighbours g.graph x))
      → ((x : String) (k : ℕ) → Chain g.graph x k → k ≤ limit)
      → (x : String) (k : ℕ) → Chain grown.graph x k
      → k ≤ limit
  grown-Chain-le unused old =
      Chain-le g.graph grown.graph t ds (update-IsBatch g t ds) (λ d h e. free d h (inl e)) unused
        limit old
        (λ d h k c. omega (
          arith,
          (find_failure-none g limit t ds passed d h).1,
          (get_max_depth-IsDepth g d acyclic).longest k c,
        ))

-- Whatever a delegated task asks for, an acyclic graph is acyclic after it was handled: the
-- dependencies are all validated against the graph before any of them is added, and that is enough.
pub delegated-IsAcyclic :
    (limit : ℕ) (h : Handler) (t : String) (ds : List String)
    → IsAcyclic h.graph.graph
    → IsAcyclic (handle_task_delegated limit h t ds).0.graph.graph
delegated-IsAcyclic limit h t ds acyclic = elim (delegated-Ends limit h t ds) [
  | idle _ e ↦ rw e acyclic
  | refused bad code _ e ↦ rw e acyclic
  | accepted store passed e _ _ _ ↦ rw e (grown-IsAcyclic h.graph limit t ds acyclic passed)
]

-- If the graph is acyclic, every chain of dependencies is within the limit, and no task depends on
-- the delegated one yet, then every chain is still within the limit after the task was handled.
pub delegated-Chain-le :
    (limit : ℕ) (h : Handler) (t : String) (ds : List String)
    → IsAcyclic h.graph.graph
    → ((x : String) → ¬ (t ∈ neighbours h.graph.graph x))
    → ((x : String) (k : ℕ) → Chain h.graph.graph x k → k ≤ limit)
    → (x : String) (k : ℕ) → Chain (handle_task_delegated limit h t ds).0.graph.graph x k
    → k ≤ limit
delegated-Chain-le limit h t ds acyclic unused old x k = elim (delegated-Ends limit h t ds) [
  | idle _ e ↦ rw e (old x k)
  | refused bad code _ e ↦ rw e (old x k)
  | accepted store passed e _ _ _ ↦
      rw e (grown-Chain-le h.graph limit t ds acyclic passed unused old x k)
]

-- A refused task changes neither the graph nor the stored dependencies, and exactly one event is
-- emitted: the failure of one of the dependencies that it asked for.
pub delegated_refused :
    (limit : ℕ) (h h' : Handler) (t : String) (ds : List String) (e : ErrorCode)
    → handle_task_delegated limit h t ds ≡ (h', err e)
    → (bad : String) × (bad ∈ ds) × (h' ≡ emit h (dependency_failed t bad))
delegated_refused limit h h' t ds e done = elim (delegated-Ends limit h t ds) [
  | idle _ r ↦ cc
  | refused bad code asked r ↦ (bad, asked, ground arith)
  | accepted store passed _ _ _ fine ↦ ground arith
]
