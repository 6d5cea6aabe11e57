-- ===== src/Tests/GraphTests.antt =====
-- src/core/dependency-graph.ts on a graph of three tasks, where b depends on a, and c on b.
use autobeat.Prelude.{
  String, List, [], ◌∷◌, true, false, ◌≡◌, ◌≢◌, refl, ◌⊎◌, inl, ◌↔◌, ◌∈◌, arith, String-discrete,
  dec_in, add, delete,
}
use text.Mathlib.TextEquality.{eq_iff}
use autobeat.Prelude.Dict
use autobeat.Adjacency.{neighbours, ensure, link, put_back, unlink, drop_phantom, unlink_all}
use autobeat.Adjacency.Paths.{Reaches, IsAcyclic}
use autobeat.Result.{err, invalid_operation}
use autobeat.Search.{
  collect_each, collect, collect_transitive_nodes, detect_each, detect_cycle_dfs, has_cycle_from,
  dec_target,
}
use autobeat.Graph.{
  DependencyGraph, validate_task_id, is_blank, forget_all, invalidate_transitive_caches, add_all,
  new, add_edge_internal, add_edge, remove_edge_internal, remove_edge, forget_task,
  remove_task_internal, remove_task, would_create_cycle, has_cycle, get_all_dependencies,
  get_all_dependents, has_task, get_direct_dependencies,
}
use autobeat.Graph.Acyclic.{would_create_cycle_iff, has_cycle_iff}
use autobeat.Graph.Histories.{
  Call, adds, removes, removes_task, asks_dependencies, asks_dependents, call, calls,
  get_all_dependencies-Reaches, get_all_dependents-Reaches,
}
use autobeat.Graph.Guarded.{guarded_call, guarded_calls, guarded_calls-IsAcyclic}
use autobeat.Graph.Missing.{remove_edge_forgets}

program : Unit {0}
unfolding Dict.get Dict.set Dict.delete String-discrete dec_in add delete neighbours ensure link
    put_back unlink drop_phantom unlink_all collect_each collect collect_transitive_nodes
    detect_each detect_cycle_dfs has_cycle_from dec_target validate_task_id is_blank forget_all
    invalidate_transitive_caches add_all new add_edge_internal add_edge remove_edge_internal
    remove_edge forget_task remove_task_internal remove_task would_create_cycle has_cycle
    get_all_dependencies get_all_dependents has_task get_direct_dependencies call calls guarded_call
    guarded_calls
program = tt

abbrev chain : List (String × String)
chain = ("b", "a") ∷ ("c", "b") ∷ []

abbrev history : List Call
history = asks_dependencies "c" ∷ removes "b" "a" ∷ adds "a" "d" ∷ asks_dependents "a" ∷ []

get_all_dependencies-chain : (get_all_dependencies (new chain) "c").0 ≡ "b" ∷ "a" ∷ []
unfolding program
get_all_dependencies-chain = refl

get_all_dependencies_after : (get_all_dependencies (calls (new chain) history) "c").0 ≡ "b" ∷ []
unfolding program
get_all_dependencies_after = refl

would_create_cycle-chain :
    (would_create_cycle (new chain) "a" "c" ≡ true)
    × (would_create_cycle (new chain) "c" "a" ≡ false)
unfolding program
would_create_cycle-chain = (refl, refl)

add_edge_blank : add_edge (new chain) "a" " " ≡ err invalid_operation
unfolding program
add_edge_blank = refl

get_all_dependencies-Reaches_example :
    ("b" ∈ (get_all_dependencies (calls (new chain) history) "c").0)
    ↔ Reaches (calls (new chain) history).graph "c" "b"
get_all_dependencies-Reaches_example = get_all_dependencies-Reaches chain history "c" "b"

get_all_dependents-Reaches_example :
    ("c" ∈ (get_all_dependents (calls (new chain) history) "b").0)
    ↔ Reaches (calls (new chain) history).graph "c" "b"
get_all_dependents-Reaches_example = get_all_dependents-Reaches chain history "b" "c"

abbrev plan : List Call
plan = adds "b" "a" ∷ adds "c" "b" ∷ adds "a" "c" ∷ removes_task "b" ∷ []

guarded_calls-IsAcyclic_example :
    IsAcyclic (guarded_calls (new []) plan).graph
    × (has_cycle (guarded_calls (new []) plan) ≡ false)
guarded_calls-IsAcyclic_example = guarded_calls-IsAcyclic plan

chain-IsAcyclic : IsAcyclic (new chain).graph
unfolding program
chain-IsAcyclic = (has_cycle_iff (new chain)).0 refl

would_create_cycle_iff_example :
    (would_create_cycle (new chain) "a" "c" ≡ true)
    ↔ ((◌≡◌ {A = String} "a" "c") ⊎ Reaches (new chain).graph "c" "a")
would_create_cycle_iff_example = would_create_cycle_iff (new chain) "a" "c" chain-IsAcyclic

has_cycle_iff_example : (has_cycle (new chain) ≡ false) ↔ IsAcyclic (new chain).graph
has_cycle_iff_example = has_cycle_iff (new chain)

-- Both b and d depend on a, which depends on nothing; the edge of b is removed.
abbrev fork : List (String × String)
fork = ("b", "a") ∷ ("d", "a") ∷ []

abbrev cut : DependencyGraph
cut = remove_edge_internal (invalidate_transitive_caches (new fork) "b" "a") "b" "a"

d_not_b : ◌≢◌ {A = String} "d" "b"
d_not_b = ground (arith, eq_iff "d" "b")

remove_edge_forgets_example : (has_task cut "a" ≡ false) × ("a" ∈ get_direct_dependencies cut "d")
unfolding program
remove_edge_forgets_example =
    remove_edge_forgets (new fork) cut "b" "a" "d" refl refl d_not_b (inl refl)
