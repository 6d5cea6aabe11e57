-- ===== src/Graph/Missing.antt =====
-- `removeEdge` drops the entry of a task without dependencies, also while others depend on it.
use autobeat.Prelude.{
  String, List, [], ◌∷◌, some, ◌⊎◌, inl, inr, refl, false, ◌≡◌, ◌≢◌, ◌∈◌, arith, delete,
  Option-cases, none,
}
use autobeat.Prelude.Dict
use autobeat.Adjacency.{Adjacency, neighbours, put_back, unlink, drop_phantom}
use autobeat.Result.{ok}
use autobeat.Graph.{
  DependencyGraph, remove_edge, remove_edge_internal, invalidate_transitive_caches, has_task,
  get_direct_dependencies,
}
use autobeat.Graph.Edges.{remove-graph}

module _ (m : Adjacency) (b : String) where
  put_back_empty :
      (a : String) (xs : List String)
      → Dict.get m b ≡ some []
      → (a ≡ b → xs ≡ [])
      → (Dict.get (put_back m a xs) b ≡ some []) ⊎ (Dict.get (put_back m a xs) b ≡ none)
  unfolding put_back
  put_back_empty a [] e h = ground (arith, Dict.get-delete m a b)
  put_back_empty a (x ∷ xs) e h = ground (arith, Dict.get-set m a (x ∷ xs) b)

  unlink_empty :
      (a : String)
      → Dict.get m b ≡ some []
      → (Dict.get (unlink m a b) b ≡ some []) ⊎ (Dict.get (unlink m a b) b ≡ none)
  unfolding unlink delete
  unlink_empty a e = elim (Option-cases (Dict.get m a)) [
    | inl no_entry ↦ rw (no_entry, unlink) (inl e)
    | inr (xs, entry) ↦ rw (entry, unlink) (put_back_empty a (delete xs b) e (λ same. ground arith))
  ]

  drop_phantom-none :
      (Dict.get m b ≡ some []) ⊎ (Dict.get m b ≡ none) → Dict.get (drop_phantom m b) b ≡ none
  unfolding drop_phantom
  drop_phantom-none h = ground (arith, Dict.get-delete m b b)

removed :
    (g g' : DependencyGraph) (a b : String)
    → remove_edge g a b ≡ ok g'
    → g' ≡ remove_edge_internal (invalidate_transitive_caches g a b) a b
unfolding remove_edge
removed g g' a b e = ground arith

cut-gone :
    (g : DependencyGraph) (a b : String)
    → Dict.get g.graph b ≡ some []
    → Dict.get (remove_edge_internal (invalidate_transitive_caches g a b) a b).graph b ≡ none
unfolding remove_edge_internal invalidate_transitive_caches
cut-gone g a b e = drop_phantom-none (unlink g.graph a b) b (unlink_empty g.graph b a e)

cut-stays :
    (g : DependencyGraph) (a b c : String)
    → c ≢ a
    → b ∈ neighbours g.graph c
    → b ∈ neighbours (remove_edge_internal (invalidate_transitive_caches g a b) a b).graph c
unfolding remove_edge_internal invalidate_transitive_caches
cut-stays g a b c other h = (remove-graph g a b c b).1 (h, λ p. other p.0)

-- Whenever `removeEdge` succeeds for an edge to a task that has no dependencies of its own, the graph
-- no longer has that task, although any other task that depends on it still does.
pub remove_edge_forgets :
    (g g' : DependencyGraph) (a b c : String)
    → remove_edge g a b ≡ ok g'
    → Dict.get g.graph b ≡ some []
    → c ≢ a
    → b ∈ get_direct_dependencies g c
    → (has_task g' b ≡ false) × (b ∈ get_direct_dependencies g' c)
unfolding get_direct_dependencies has_task
remove_edge_forgets g g' a b c done leaf other h =
    rw (removed g g' a b done) (rw (cut-gone g a b leaf, has_task) refl, cut-stays g a b c other h)
