-- ===== src/Graph.antt =====
-- src/core/dependency-graph.ts: the class `DependencyGraph`. A method that mutates the graph
-- returns the new one. Its private searches are in `Search`.
pub mod Acyclic
pub mod Edges
pub mod Caches
pub mod Histories
pub mod Guarded
pub mod Missing
use Prim.Native.Char.{code}
use autobeat.Prelude.{
  ℕ, String, Bool, true, false, ◌&&◌, ◌||◌, none, some, List, [], ◌∷◌, ite, length, String-discrete,
  leb, ◌==◌, if◌then◌else◌,
}
use autobeat.Prelude.Dict
use autobeat.Prelude.Dict.{Dict, keys}
use autobeat.Result.{Result, ok, err, ErrorCode, invalid_operation}
use autobeat.Adjacency.{Adjacency, neighbours, ensure, link, unlink, drop_phantom, unlink_all}
use autobeat.Search.{collect_transitive_nodes, detect_cycle_dfs, fuel_for, has_cycle_from}

pub record DependencyGraph : Type 0 where
  pub graph : Adjacency
  pub reverse_graph : Adjacency
  pub dependencies_cache : Dict (List String)
  pub dependents_cache : Dict (List String)

abbrev pub Outcome : Type 0 → Type 0
Outcome T = Result T ErrorCode

-- The white space and line terminators that `trim` removes.
is_space : ℕ → Bool
is_space c =
    (leb 9 c && leb c 13)
    || (c == 32)
    || (c == 160)
    || (c == 5760)
    || (leb 8192 c && leb c 8202)
    || (c == 8232)
    || (c == 8233)
    || (c == 8239)
    || (c == 8287)
    || (c == 12288)
    || (c == 65279)

-- `s.trim() === ''`
unfoldable pub is_blank : String → Bool
unfolding is_space
is_blank String.[] = true
is_blank (String.◌∷◌ c s) = is_space (code c) && is_blank s

-- `validateTaskId`
unfoldable pub validate_task_id : String → Outcome (Unit {0})
unfolding is_blank
validate_task_id id = if is_blank id then err invalid_operation else ok tt

-- `for (const k of ks) cache.delete(k)`
unfoldable pub forget_all : Dict (List String) → List String → Dict (List String)
forget_all cache [] = cache
forget_all cache (k ∷ ks) = forget_all (Dict.delete cache k) ks

unfoldable pub invalidate_transitive_caches : DependencyGraph → String → String → DependencyGraph
unfolding forget_all
invalidate_transitive_caches g task_id depends_on = record g {
  dependencies_cache =
      forget_all (Dict.delete g.dependencies_cache task_id)
        (collect_transitive_nodes task_id g.reverse_graph);
  dependents_cache =
      forget_all (Dict.delete g.dependents_cache depends_on)
        (collect_transitive_nodes depends_on g.graph);
}

unfoldable pub add_edge_internal : DependencyGraph → String → String → DependencyGraph
unfolding ensure link
add_edge_internal g task_id depends_on = record g {
  graph = ensure (link g.graph task_id depends_on) depends_on;
  reverse_graph = ensure (link g.reverse_graph depends_on task_id) task_id;
}

-- The constructor: a fresh graph of the given edges, as pairs of a task and what it depends on.
unfoldable pub add_all : DependencyGraph → List (String × String) → DependencyGraph
unfolding add_edge_internal
add_all g [] = g
add_all g ((t, d) ∷ ds) = add_all (add_edge_internal g t d) ds

unfoldable pub new : List (String × String) → DependencyGraph
unfolding add_all
new =
    add_all
      (record { graph = []; reverse_graph = []; dependencies_cache = []; dependents_cache = [] })

unfoldable pub add_edge : DependencyGraph → String → String → Outcome DependencyGraph
add_edge g task_id depends_on = elim (validate_task_id task_id) [
  | err e ↦ err e
  | ok _ ↦ elim (validate_task_id depends_on) [
    | err e ↦ err e
    | ok _ ↦
        ok
          (add_edge_internal (invalidate_transitive_caches g task_id depends_on) task_id depends_on)
  ]
]

-- The edits of `removeEdge`, behind its validation.
unfoldable pub remove_edge_internal : DependencyGraph → String → String → DependencyGraph
unfolding unlink drop_phantom
remove_edge_internal g task_id depends_on = record g {
  graph = drop_phantom (unlink g.graph task_id depends_on) depends_on;
  reverse_graph = drop_phantom (unlink g.reverse_graph depends_on task_id) task_id;
}

unfoldable pub remove_edge : DependencyGraph → String → String → Outcome DependencyGraph
remove_edge g task_id depends_on = elim (validate_task_id task_id) [
  | err e ↦ err e
  | ok _ ↦ elim (validate_task_id depends_on) [
    | err e ↦ err e
    | ok _ ↦ ok (
        remove_edge_internal (invalidate_transitive_caches g task_id depends_on) task_id depends_on)
  ]
]

-- The first part of `removeTask`.
unfoldable pub forget_task : DependencyGraph → String → DependencyGraph
unfolding forget_all
forget_task g task_id = record g {
  dependencies_cache =
      forget_all (Dict.delete g.dependencies_cache task_id)
        (collect_transitive_nodes task_id g.reverse_graph);
  dependents_cache =
      forget_all (Dict.delete g.dependents_cache task_id)
        (collect_transitive_nodes task_id g.graph);
}

-- The edits of `removeTask`: the outgoing edges first, then the incoming ones that are left.
unfoldable pub remove_task_internal : DependencyGraph → String → DependencyGraph
unfolding unlink_all
remove_task_internal g task_id =
    let reverse' = unlink_all g.reverse_graph (neighbours g.graph task_id) task_id in
    record g {
      graph = unlink_all (Dict.delete g.graph task_id) (neighbours reverse' task_id) task_id;
      reverse_graph = Dict.delete reverse' task_id;
    }

unfoldable pub remove_task : DependencyGraph → String → Outcome DependencyGraph
remove_task g task_id = elim (validate_task_id task_id) [
  | err e ↦ err e
  | ok _ ↦ ok (remove_task_internal (forget_task g task_id) task_id)
]

unfoldable pub would_create_cycle : DependencyGraph → String → String → Bool
would_create_cycle g task_id depends_on =
    let temp = ensure (link g.graph task_id depends_on) depends_on in
    ite (String-discrete task_id depends_on) true
      (detect_cycle_dfs (fuel_for temp) temp (some task_id) depends_on
        (record { visited = []; stack = [] })).0

unfoldable pub has_cycle : DependencyGraph → Bool
unfolding has_cycle_from
has_cycle g = has_cycle_from g.graph (keys g.graph) (record { visited = []; stack = [] })

unfoldable pub get_all_dependencies : DependencyGraph → String → List String × DependencyGraph
get_all_dependencies g task_id = elim (Dict.get g.dependencies_cache task_id) [
  | some cached ↦ (cached, g)
  | none ↦
      let result = collect_transitive_nodes task_id g.graph in
      (result, record g { dependencies_cache = Dict.set g.dependencies_cache task_id result })
]

unfoldable pub get_all_dependents : DependencyGraph → String → List String × DependencyGraph
get_all_dependents g task_id = elim (Dict.get g.dependents_cache task_id) [
  | some cached ↦ (cached, g)
  | none ↦
      let result = collect_transitive_nodes task_id g.reverse_graph in
      (result, record g { dependents_cache = Dict.set g.dependents_cache task_id result })
]

unfoldable pub get_direct_dependencies : DependencyGraph → String → List String
get_direct_dependencies g task_id = neighbours g.graph task_id

unfoldable pub get_direct_dependents : DependencyGraph → String → List String
get_direct_dependents g task_id = neighbours g.reverse_graph task_id

unfoldable pub size : DependencyGraph → ℕ
size g = length (keys g.graph)

unfoldable pub has_task : DependencyGraph → String → Bool
has_task g task_id = elim (Dict.get g.graph task_id) [ none ↦ false | some _ ↦ true ]
