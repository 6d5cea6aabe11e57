-- ===== src/Graph/Caches.antt =====
-- The two memo tables of `DependencyGraph` always hold what a fresh search would find.
use autobeat.Prelude.{
  String, List, [], ◌∷◌, some, ◌≡◌, ◌≢◌, ◌⊎◌, inl, inr, ◌↔◌, ◌∈◌, arith, Option-cases,
}
use autobeat.Prelude.Dict
use autobeat.Prelude.Dict.{Dict}
use autobeat.Adjacency.{Adjacency}
use autobeat.Adjacency.Paths.{
  Reaches, IsReverse, IsReverse-sym, Reaches-reverse, AgreesOff, Reaches-off,
}
use autobeat.Search.{collect_transitive_nodes}
use autobeat.Search.Collect.{∈-collect_transitive_nodes}
use autobeat.Graph.{
  DependencyGraph, forget_all, invalidate_transitive_caches, forget_task, add_edge_internal,
  remove_edge_internal, remove_task_internal, get_all_dependencies, get_all_dependents,
}
use autobeat.Graph.Edges.{
  IsConsistent, add-graph, add-reverse, remove-graph, remove-reverse, remove_task-graph,
  remove_task-reverse, add-IsConsistent, remove-IsConsistent, remove_task-IsConsistent,
  IsExtended-AgreesOff, IsReduced-AgreesOff, IsWithout-AgreesOff,
}

-- Each entry lists what its key reaches.
abbrev pub IsCached : Adjacency → Dict (List String) → Type 0
IsCached m c =
    (k : String) (xs : List String)
    → Dict.get c k ≡ some xs
    → (y : String) → (y ∈ xs) ↔ Reaches m k y

-- What is left of a table was there before, under a key that was not dropped.
forget_all_kept :
    (ks : List String) (c : Dict (List String)) (k : String) (xs : List String)
    → Dict.get (forget_all c ks) k ≡ some xs
    → (Dict.get c k ≡ some xs) × ¬ (k ∈ ks)
unfolding forget_all
forget_all_kept [] c k xs e = (e, λ h. h)
forget_all_kept (j ∷ ks) c k xs e =
    ground (arith, forget_all_kept ks (Dict.delete c j) k xs e, Dict.get-delete c j k)

-- A change of the edges of `a` is safe for a table that forgets `a` and all that reach it.
forget-IsCached :
    (m n r : Adjacency) (c : Dict (List String)) (a : String)
    → IsReverse m r
    → AgreesOff a m n
    → IsCached m c
    → IsCached n (forget_all (Dict.delete c a) (collect_transitive_nodes a r))
forget-IsCached m n r c a v g ok k xs e y =
    let (there, off) = forget_all_kept (collect_transitive_nodes a r) (Dict.delete c a) k xs e in
    let (same, ne) = deleted there in
    let away =
      Reaches-off g k y ne
        (λ p. off ((∈-collect_transitive_nodes r a k).1 (Reaches-reverse v p))) in
    let old = ok k xs same y in (λ h. away.0 (old.0 h), λ p. old.1 (away.1 p))
  where
    deleted : Dict.get (Dict.delete c a) k ≡ some xs → (Dict.get c k ≡ some xs) × (k ≢ a)
    deleted there = ground (arith, Dict.get-delete c a k)

set-IsCached :
    (m : Adjacency) (c : Dict (List String)) (k : String)
    → IsCached m c
    → IsCached m (Dict.set c k (collect_transitive_nodes k m))
set-IsCached m c k ok j xs e y = elim found [
  | inl (same, new) ↦ rw (new, same) (∈-collect_transitive_nodes m k y)
  | inr old ↦ ok j xs old y
]
  where
    found : ((j ≡ k) × (xs ≡ collect_transitive_nodes k m)) ⊎ (Dict.get c j ≡ some xs)
    found = ground (arith, Dict.get-set c k (collect_transitive_nodes k m) j)

-- Both lists hold the same edges, and both tables are right.
pub record IsCoherent (g : DependencyGraph) : Type 0 where
  pub consistent : IsConsistent g
  pub dependencies : IsCached g.graph g.dependencies_cache
  pub dependents : IsCached g.reverse_graph g.dependents_cache

module _ (g : DependencyGraph) (ok : IsCoherent g) where
  reversed : IsReverse g.reverse_graph g.graph
  reversed = IsReverse-sym g.graph g.reverse_graph ok.consistent

  pub add-IsCoherent :
      (a b : String) → IsCoherent (add_edge_internal (invalidate_transitive_caches g a b) a b)
  unfolding invalidate_transitive_caches add_edge_internal
  add-IsCoherent a b = record {
    consistent = add-IsConsistent g a b ok.consistent;
    dependencies =
        forget-IsCached g.graph _ g.reverse_graph _ a ok.consistent
          (IsExtended-AgreesOff _ _ a b (add-graph g a b)) ok.dependencies;
    dependents =
        forget-IsCached g.reverse_graph _ g.graph _ b reversed
          (IsExtended-AgreesOff _ _ b a (add-reverse g a b)) ok.dependents;
  }

  pub remove-IsCoherent :
      (a b : String) → IsCoherent (remove_edge_internal (invalidate_transitive_caches g a b) a b)
  unfolding invalidate_transitive_caches remove_edge_internal
  remove-IsCoherent a b = record {
    consistent = remove-IsConsistent g a b ok.consistent;
    dependencies =
        forget-IsCached g.graph _ g.reverse_graph _ a ok.consistent
          (IsReduced-AgreesOff _ _ a b (remove-graph g a b)) ok.dependencies;
    dependents =
        forget-IsCached g.reverse_graph _ g.graph _ b reversed
          (IsReduced-AgreesOff _ _ b a (remove-reverse g a b)) ok.dependents;
  }

  pub remove_task-IsCoherent : (t : String) → IsCoherent (remove_task_internal (forget_task g t) t)
  unfolding forget_task remove_task_internal
  remove_task-IsCoherent t = record {
    consistent = remove_task-IsConsistent g t ok.consistent;
    dependencies =
        forget-IsCached g.graph _ g.reverse_graph _ t ok.consistent
          (IsWithout-AgreesOff _ _ t (remove_task-graph g t ok.consistent)) ok.dependencies;
    dependents =
        forget-IsCached g.reverse_graph _ g.graph _ t reversed
          (IsWithout-AgreesOff _ _ t (remove_task-reverse g t ok.consistent)) ok.dependents;
  }

  abbrev Lists : Adjacency → String → List String → Type 0
  Lists m k xs = (y : String) → (y ∈ xs) ↔ Reaches m k y

  pub get_all_dependencies_lem :
      (k : String)
      → Lists g.graph k (get_all_dependencies g k).0 × IsCoherent (get_all_dependencies g k).1
  unfolding get_all_dependencies
  get_all_dependencies_lem k = elim (Option-cases (Dict.get g.dependencies_cache k)) [
    | inr (xs, e) ↦ rw (e, get_all_dependencies) (ok.dependencies k xs e, ok)
    | inl e ↦
        rw (e, get_all_dependencies)
          (
            ∈-collect_transitive_nodes g.graph k,
            record {
              consistent = ok.consistent;
              dependencies = set-IsCached g.graph g.dependencies_cache k ok.dependencies;
              dependents = ok.dependents;
            },
          )
  ]

  pub get_all_dependents_lem :
      (k : String)
      → Lists g.reverse_graph k (get_all_dependents g k).0 × IsCoherent (get_all_dependents g k).1
  unfolding get_all_dependents
  get_all_dependents_lem k = elim (Option-cases (Dict.get g.dependents_cache k)) [
    | inr (xs, e) ↦ rw (e, get_all_dependents) (ok.dependents k xs e, ok)
    | inl e ↦
        rw (e, get_all_dependents)
          (
            ∈-collect_transitive_nodes g.reverse_graph k,
            record {
              consistent = ok.consistent;
              dependencies = ok.dependencies;
              dependents = set-IsCached g.reverse_graph g.dependents_cache k ok.dependents;
            },
          )
  ]
