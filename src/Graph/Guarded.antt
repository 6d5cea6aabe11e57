-- ===== src/Graph/Guarded.antt =====
-- The guard of `src/services/handlers/dependency-handler.ts`, which asks `wouldCreateCycle` before it
-- adds an edge, keeps the graph acyclic.
use autobeat.Prelude.{String, List, [], ◌∷◌, true, false, ◌≡◌, inl, inr, arith, Bool-cases}
use autobeat.Adjacency.Paths.{IsAcyclic, edge, step}
use autobeat.Graph.{
  DependencyGraph, new, would_create_cycle, has_cycle, get_all_dependencies, get_all_dependents,
  add_edge_internal, invalidate_transitive_caches, remove_edge_internal, remove_task_internal,
  forget_task,
}
use autobeat.Graph.Acyclic.{has_cycle_iff, add-IsAcyclic, remove-IsAcyclic, remove_task-IsAcyclic}
use autobeat.Graph.Caches.{IsCoherent, add-IsCoherent, remove-IsCoherent, remove_task-IsCoherent}
use autobeat.Graph.Histories.{
  Call, adds, removes, removes_task, asks_dependencies, asks_dependents, call, nothing, add_cases,
  remove_cases, remove_task_cases, call-IsCoherent, new-IsCoherent,
}

-- The manager's protocol: an edge is added only after `wouldCreateCycle` answered false.
unfoldable pub guarded_call : DependencyGraph → Call → DependencyGraph
guarded_call g (adds a b) = elim (would_create_cycle g a b) [ true ↦ g | false ↦ call g (adds a b) ]
guarded_call g c = call g c

unfoldable pub guarded_calls : DependencyGraph → List Call → DependencyGraph
guarded_calls g [] = g
guarded_calls g (c ∷ cs) = guarded_calls (guarded_call g c) cs

record IsGuarded (g : DependencyGraph) : Type 0 where
  coherent : IsCoherent g
  acyclic : IsAcyclic g.graph

call-IsGuarded_removes :
    (g : DependencyGraph) (a b : String) → IsGuarded g → IsGuarded (call g (removes a b))
unfolding call invalidate_transitive_caches remove_edge_internal
call-IsGuarded_removes g a b v = remove_cases IsGuarded g v a b (record {
  coherent = remove-IsCoherent g v.coherent a b;
  acyclic = remove-IsAcyclic g a b v.acyclic;
})

call-IsGuarded_task :
    (g : DependencyGraph) (t : String) → IsGuarded g → IsGuarded (call g (removes_task t))
unfolding call forget_task remove_task_internal
call-IsGuarded_task g t v = remove_task_cases IsGuarded g v t (record {
  coherent = remove_task-IsCoherent g v.coherent t;
  acyclic = remove_task-IsAcyclic g t v.coherent.consistent v.acyclic;
})

call-IsGuarded_adds :
    (g : DependencyGraph) (a b : String)
    → would_create_cycle g a b ≡ false
    → IsGuarded g
    → IsGuarded (call g (adds a b))
unfolding call invalidate_transitive_caches add_edge_internal
call-IsGuarded_adds g a b e v = add_cases IsGuarded g v a b (record {
  coherent = add-IsCoherent g v.coherent a b;
  acyclic = add-IsAcyclic g a b v.acyclic e;
})

asks_same : (g : DependencyGraph) (t : String) → (get_all_dependencies g t).1.graph ≡ g.graph
unfolding get_all_dependencies
asks_same g t = ground arith

asks_same' : (g : DependencyGraph) (t : String) → (get_all_dependents g t).1.graph ≡ g.graph
unfolding get_all_dependents
asks_same' g t = ground arith

guarded_call-IsGuarded :
    (g : DependencyGraph) (c : Call) → IsGuarded g → IsGuarded (guarded_call g c)
unfolding guarded_call
guarded_call-IsGuarded g (adds a b) v = elim (Bool-cases (would_create_cycle g a b)) [
  | inl e ↦ rw (e, guarded_call) v
  | inr e ↦ rw (e, guarded_call) (call-IsGuarded_adds g a b e v)
]
guarded_call-IsGuarded g (removes a b) v = call-IsGuarded_removes g a b v
guarded_call-IsGuarded g (removes_task t) v = call-IsGuarded_task g t v
guarded_call-IsGuarded g (asks_dependencies t) v = record {
  coherent = call-IsCoherent g (asks_dependencies t) v.coherent;
  acyclic = unfold call in (rw (asks_same g t) v.acyclic);
}
guarded_call-IsGuarded g (asks_dependents t) v = record {
  coherent = call-IsCoherent g (asks_dependents t) v.coherent;
  acyclic = unfold call in (rw (asks_same' g t) v.acyclic);
}

guarded_calls-IsGuarded :
    (g : DependencyGraph) (cs : List Call) → IsGuarded g → IsGuarded (guarded_calls g cs)
unfolding guarded_calls
guarded_calls-IsGuarded g [] v = v
guarded_calls-IsGuarded g (c ∷ cs) v =
    guarded_calls-IsGuarded (guarded_call g c) cs (guarded_call-IsGuarded g c v)

no_edge-IsAcyclic : IsAcyclic (new []).graph
unfolding new
no_edge-IsAcyclic x (edge h) = nothing _ _ h
no_edge-IsAcyclic x (step h p) = nothing _ _ h

-- As long as every edge is added only after `wouldCreateCycle` answered false, no history of calls
-- on an empty graph makes a cycle, and `hasCycle` says so.
pub guarded_calls-IsAcyclic :
    (cs : List Call)
    → IsAcyclic (guarded_calls (new []) cs).graph × (has_cycle (guarded_calls (new []) cs) ≡ false)
guarded_calls-IsAcyclic cs =
    let start : IsGuarded (new []) = record {
      coherent = new-IsCoherent [];
      acyclic = no_edge-IsAcyclic;
    } in
    let v = guarded_calls-IsGuarded (new []) cs start in
    (v.acyclic, (has_cycle_iff (guarded_calls (new []) cs)).1 v.acyclic)
