-- ===== src/Dependencies/Delegated.antt =====
-- `handleTaskDelegated` of src/services/handlers/dependency-handler.ts.
use autobeat.Prelude.{
  ℕ, suc, ◌≤◌, String, false, none, some, List, [], ◌∷◌, map, ◌≡◌, refl, inl, inr, ◌∈◌, arith,
  Option-cases, subst, sym,
}
use autobeat.Result.{Result, ErrorCode, ok, err, Result-cases, invalid_operation}
use autobeat.Graph.{
  DependencyGraph, would_create_cycle, add_edge, add_edge_internal, invalidate_transitive_caches,
}
use autobeat.Graph.Edges.{add-graph}
use autobeat.Graph.Histories.{add_cases, after}
use autobeat.Depth.{get_max_depth}
use autobeat.Dependencies.{
  Failure, Row, Store, Handler, dependency_added, dependency_failed, emit, new_row,
  add_dependencies, validate_single_dependency, find_failure, update_graph_after_persistence,
  emit_dependency_added_events, handle_task_delegated,
}
use autobeat.Dependencies.Batch.{IsBatch}

-- An addition that fails changes nothing, so either way the new edges are among those asked for.
add_edge-IsBatch :
    (g : DependencyGraph) (t d : String) (ds : List String)
    → d ∈ ds
    → IsBatch g.graph (after g (add_edge g t d)).graph t ds
unfolding invalidate_transitive_caches
add_edge-IsBatch g t d ds h =
    add_cases (λ g'. IsBatch g.graph g'.graph t ds) g (λ x y l. inl l) t d added
  where
    added : IsBatch g.graph (add_edge_internal (invalidate_transitive_caches g t d) t d).graph t ds
    added x y l = elim ((add-graph (invalidate_transitive_caches g t d) t d x y).0 l) [
      | inl old ↦ inl old
      | inr (e, e') ↦ inr (e, subst (λ z. z ∈ ds) (sym e') h)
    ]

update-after :
    (g : DependencyGraph) (t d : String) (rs : List Row)
    → update_graph_after_persistence g (new_row t d ∷ rs)
      ≡ update_graph_after_persistence (after g (add_edge g t d)) rs
unfolding update_graph_after_persistence
update-after g t d rs = ground arith

pub update-IsBatch :
    (g : DependencyGraph) (t : String) (ds : List String)
    → IsBatch g.graph (update_graph_after_persistence g (map (new_row t) ds)).graph t ds
unfolding update_graph_after_persistence
update-IsBatch g t [] x y h = inl h
update-IsBatch g t (d ∷ ds) x y h =
    let g' = after g (add_edge g t d) in
    elim (update-IsBatch g' t ds x y (rw (update-after g t d (map (new_row t) ds)) at h)) [
      | inr (e, l) ↦ inr (e, inr l)
      | inl there ↦ add_edge-IsBatch g t d (d ∷ ds) (inl refl) x y there
    ]

-- What a request has passed when no validation fails.
pub find_failure-none :
    (g : DependencyGraph) (limit : ℕ) (t : String) (ds : List String)
    → find_failure g limit t ds ≡ none
    → (d : String) → d ∈ ds
    → (would_create_cycle g t d ≡ false) × (suc (get_max_depth g d) ≤ limit)
unfolding find_failure validate_single_dependency
find_failure-none g limit t [] e d h = absurd h
find_failure-none g limit t (c ∷ ds) e d (inl same) = rw same (ground arith)
find_failure-none g limit t (c ∷ ds) e d (inr l) = find_failure-none g limit t ds (ground arith) d l

-- What fails is one of the ids that were asked for.
find_failure-Mem :
    (g : DependencyGraph) (limit : ℕ) (t : String) (ds : List String) (bad : String) (why : Failure)
    → find_failure g limit t ds ≡ some (bad, why)
    → bad ∈ ds
unfolding find_failure
find_failure-Mem g limit t [] bad why e = absurd cc
find_failure-Mem g limit t (d ∷ ds) bad why e =
    elim (Option-cases (validate_single_dependency g limit t d)) [
      | inr (f, e') ↦ inl (ground arith)
      | inl e' ↦ inr (find_failure-Mem g limit t ds bad why (ground arith))
    ]

-- The rows that the repository returns are those of the request.
add_dependencies-rows :
    (s s' : Store) (t : String) (ds : List String) (rows : List Row)
    → add_dependencies s t ds ≡ ok (s', rows)
    → rows ≡ map (new_row t) ds
unfolding add_dependencies
add_dependencies-rows s s' t [] rows e = cc
add_dependencies-rows s s' t (d ∷ ds) rows e = ground arith

events-same :
    (h : Handler) (rs : List Row)
    → ((emit_dependency_added_events h rs).graph ≡ h.graph)
      × ((emit_dependency_added_events h rs).store ≡ h.store)
unfolding emit_dependency_added_events
events-same h [] = (refl, refl)
events-same h (r ∷ rs) = events-same (emit h (dependency_added r.task_id r.depends_on)) rs

-- The three ways in which the handler ends.
pub data Ends (limit : ℕ) (h : Handler) (t : String) (ds : List String)
    (r : Handler × Result (Unit {0}) ErrorCode) : Type 0 where
  idle : ds ≡ [] → r ≡ (h, ok tt) → Ends limit h t ds r
  refused :
      (bad : String) (e : ErrorCode)
      → bad ∈ ds
      → r ≡ (emit h (dependency_failed t bad), err e)
      → Ends limit h t ds r
  accepted :
      (store : Store)
      → find_failure h.graph limit t ds ≡ none
      → r.0.graph ≡ update_graph_after_persistence h.graph (map (new_row t) ds)
      → add_dependencies h.store t ds ≡ ok (store, map (new_row t) ds)
      → r.0.store ≡ store
      → r.1 ≡ ok tt
      → Ends limit h t ds r

pub delegated-Ends :
    (limit : ℕ) (h : Handler) (t : String) (ds : List String)
    → Ends limit h t ds (handle_task_delegated limit h t ds)
unfolding handle_task_delegated
delegated-Ends limit h t [] = idle refl refl
delegated-Ends limit h t (d ∷ ds) = elim (Option-cases (find_failure h.graph limit t (d ∷ ds))) [
  | inr ((bad, why), e) ↦
      rw (e, handle_task_delegated)
        (refused bad invalid_operation (find_failure-Mem h.graph limit t (d ∷ ds) bad why e) refl)
  | inl e ↦ elim (Result-cases (add_dependencies h.store t (d ∷ ds))) [
    | inr (code, e') ↦ rw (e, e', handle_task_delegated) (refused d code (inl refl) refl)
    | inl ((store, rows), e') ↦ rw (e, e', handle_task_delegated) (done store rows e e')
  ]
]
  where
    done :
        (store : Store) (rows : List Row)
        → find_failure h.graph limit t (d ∷ ds) ≡ none
        → add_dependencies h.store t (d ∷ ds) ≡ ok (store, rows)
        → Ends limit h t (d ∷ ds) (
          emit_dependency_added_events
              (record h { graph = update_graph_after_persistence h.graph rows; store = store })
              rows,
          ok tt,
        )
    done store rows e e' =
        let same : rows ≡ map (new_row t) (d ∷ ds) =
          add_dependencies-rows h.store store t (d ∷ ds) rows e' in
        let after' : Handler = record h {
          graph = update_graph_after_persistence h.graph rows;
          store = store;
        } in
        let (g_same, s_same) = events-same after' rows in
        accepted store e (cc (g_same, same)) (cc (e', same)) s_same refl
