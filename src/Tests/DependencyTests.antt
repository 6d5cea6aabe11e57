-- ===== src/Tests/DependencyTests.antt =====
-- src/services/handlers/dependency-handler.ts on three tasks: b depends on a, and c is delegated with
-- a dependency on b.
use autobeat.Prelude.{
  ℕ, ◌≤◌, String, [], ◌∷◌, ◌≡◌, refl, ◌⊎◌, inl, inr, ◌∈◌, arith, String-discrete, dec_in, add,
  delete, Has, true, false,
}
use autobeat.Prelude.Dict
use autobeat.Adjacency.{neighbours, ensure, link, put_back, unlink, drop_phantom, unlink_all}
use autobeat.Adjacency.Paths.{IsAcyclic}
use autobeat.Result.{invalid_operation}
use autobeat.Search.{
  collect_each, collect, collect_transitive_nodes, detect_each, detect_cycle_dfs, has_cycle_from,
  dec_target,
}
use autobeat.Graph.{
  DependencyGraph, validate_task_id, is_blank, forget_all, invalidate_transitive_caches, add_all,
  new, add_edge_internal, add_edge, would_create_cycle, has_cycle,
}
use autobeat.Graph.Acyclic.{has_cycle_iff}
use autobeat.Depth.{max_each, calculate_depth, get_max_depth}
use autobeat.Depth.Longest.{Chain, IsDepth, get_max_depth-IsDepth}
use autobeat.Dependencies.{
  completed, failed, Store, Database, dependency_failed, dependency_resolved,
  cancellation_requested, unblocked, Handler, emit, settle, get_dependencies, get_dependents,
  has_row, all_exist, none_known, insert_each, add_dependencies, validate_single_dependency,
  find_failure, update_graph_after_persistence, emit_dependency_added_events, handle_task_delegated,
  resolve_dependencies_batch, any_row, is_blocked, resolve_one, resolve_each, new_row,
  resolve_dependencies, handle_task_ended, task_timeout,
}
use autobeat.Dependencies.Limits.{delegated-IsAcyclic, delegated-Chain-le, delegated_refused}
use autobeat.Dependencies.Resolved.{IsReady, HasBad}
use autobeat.Dependencies.Outcomes.{
  settled, resolve_unblocked-IsReady, resolve_decides, resolve_cascades,
}

program : Unit {0}
unfolding Dict.get Dict.set Dict.delete String-discrete dec_in add delete neighbours ensure link
    put_back unlink drop_phantom unlink_all collect_each collect collect_transitive_nodes
    detect_each detect_cycle_dfs has_cycle_from dec_target validate_task_id is_blank forget_all
    invalidate_transitive_caches add_all new add_edge_internal add_edge would_create_cycle has_cycle
    max_each calculate_depth get_max_depth settle get_dependencies get_dependents has_row all_exist
    none_known insert_each add_dependencies validate_single_dependency find_failure
    update_graph_after_persistence emit_dependency_added_events handle_task_delegated
    resolve_dependencies_batch any_row is_blocked resolve_one resolve_each resolve_dependencies
    handle_task_ended
program = tt

abbrev graph : DependencyGraph
graph = new (("b", "a") ∷ [])

graph-IsAcyclic : IsAcyclic graph.graph
unfolding program
graph-IsAcyclic = (has_cycle_iff graph).0 refl

abbrev store : Store
store = record { tasks = "a" ∷ "b" ∷ "c" ∷ []; rows = new_row "b" "a" ∷ [] }

abbrev start : Handler
start = record { graph = graph; store = store; events = [] }

abbrev delegated : Handler
delegated = (handle_task_delegated 3 start "c" ("b" ∷ [])).0

delegated_rows : delegated.store.rows ≡ new_row "b" "a" ∷ new_row "c" "b" ∷ []
unfolding program
delegated_rows = refl

delegated_edges : neighbours delegated.graph.graph "c" ≡ "b" ∷ []
unfolding program
delegated_edges = refl

get_max_depth-IsDepth_example : IsDepth graph.graph "b" (get_max_depth graph "b")
get_max_depth-IsDepth_example = get_max_depth-IsDepth graph "b" graph-IsAcyclic

delegated-IsAcyclic_example : IsAcyclic delegated.graph.graph
delegated-IsAcyclic_example = delegated-IsAcyclic 3 start "c" ("b" ∷ []) graph-IsAcyclic

delegated_refused_example :
    (bad : String) × (bad ∈ "b" ∷ [])
    × ((handle_task_delegated 3 start "a" ("b" ∷ [])).0 ≡ emit start (dependency_failed "a" bad))
unfolding program
delegated_refused_example =
    delegated_refused 3 start (handle_task_delegated 3 start "a" ("b" ∷ [])).0 "a" ("b" ∷ [])
      invalid_operation refl

-- The graph without edges, to which c is added.
abbrev empty : Handler
empty = record start { graph = new []; store = record store { rows = [] } }

empty-IsAcyclic : IsAcyclic empty.graph.graph
unfolding program
empty-IsAcyclic = (has_cycle_iff (new [])).0 refl

empty_unused : (x : String) → ¬ ("c" ∈ neighbours empty.graph.graph x)
unfolding program
empty_unused x k = k

empty_leaf : (x y : String) → ¬ (y ∈ neighbours empty.graph.graph x)
unfolding program
empty_leaf x y k = k

empty_chains : (x : String) (k : ℕ) → Chain empty.graph.graph x k → k ≤ 1
empty_chains x k Chain.stop = omega arith
empty_chains x k (Chain.link {y = y} on c) = absurd (empty_leaf x y on)

abbrev grown : DependencyGraph
grown = (handle_task_delegated 1 empty "c" ("b" ∷ [])).0.graph

grown_edge : "b" ∈ neighbours grown.graph "c"
unfolding program
grown_edge = inl refl

grown_chain : Chain grown.graph "c" 1
grown_chain = Chain.link grown_edge Chain.stop

delegated-Chain-le_example : 1 ≤ 1
delegated-Chain-le_example =
    delegated-Chain-le 1 empty "c" ("b" ∷ []) empty-IsAcyclic empty_unused empty_chains "c" 1
      grown_chain

-- A database in which every statement succeeds, and one that cannot say whether a task is blocked.
abbrev healthy : Database
healthy = record {
  dependents = true;
  updates = true;
  blocked = λ x. true;
  dependencies = λ x. true;
  finds = λ x. true;
}

abbrev unsure : Database
unsure = record healthy { blocked = λ x. false }

resolve_unsure :
    (resolve_dependencies unsure start "a" failed).0.events
    ≡ dependency_resolved "b" "a" failed ∷ []
unfolding program
resolve_unsure = refl

timed_out :
    (handle_task_ended healthy start task_timeout "a").0.events
    ≡ dependency_resolved "b" "a" failed ∷ cancellation_requested "b" ∷ []
unfolding program
timed_out = refl

resolve_unblocked-IsReady_example :
    IsReady (resolve_dependencies healthy start "a" completed).0.store "b"
unfolding program
resolve_unblocked-IsReady_example =
    resolve_unblocked-IsReady healthy start "a" completed "b" (λ k. k) (inr (inl refl))

resolve_decides_example :
    (IsReady (settled store "a" completed) "b"
      × Has (unblocked "b") (resolve_dependencies healthy start "a" completed).0.events)
    ⊎ (HasBad (settled store "a" completed) "b"
        × Has
            (cancellation_requested "b")
            (resolve_dependencies healthy start "a" completed).0.events)
unfolding program
resolve_decides_example =
    resolve_decides healthy start "a" completed refl refl (new_row "b" "a") (inl refl) refl refl
      (refl, refl, refl) refl (inr (inl refl))

resolve_cascades_example :
    Has (cancellation_requested "b") (resolve_dependencies healthy start "a" failed).0.events
unfolding program
resolve_cascades_example =
    resolve_cascades healthy start "a" failed refl refl (new_row "b" "a") (inl refl) refl refl refl
      refl refl refl
