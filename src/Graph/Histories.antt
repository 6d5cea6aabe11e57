-- ===== src/Graph/Histories.antt =====
-- Histories of calls on one `DependencyGraph`, from its constructor on.
use autobeat.Prelude.{String, some, List, [], ◌∷◌, ◌≡◌, ◌⊎◌, inl, inr, ◌↔◌, ◌∈◌, refl, arith, subst}
use autobeat.Prelude.Dict
use autobeat.Prelude.Dict.{Dict}
use autobeat.Adjacency.{Adjacency, neighbours}
use autobeat.Adjacency.Paths.{Reaches, IsReverse, IsReverse-sym, Reaches-reverse}
use autobeat.Result.{ok, err, invalid_operation}
use autobeat.Graph.{
  DependencyGraph, Outcome, validate_task_id, add_all, new, add_edge, remove_edge, remove_task,
  get_all_dependencies, get_all_dependents, add_edge_internal, invalidate_transitive_caches,
  remove_edge_internal, remove_task_internal, forget_task,
}
use autobeat.Graph.Edges.{IsConsistent, add-IsConsistent}
use autobeat.Graph.Caches.{
  IsCoherent, IsCached, add-IsCoherent, remove-IsCoherent, remove_task-IsCoherent,
  get_all_dependencies_lem, get_all_dependents_lem,
}

-- A call of a public method that may change the graph or its tables.
pub data Call : Type 0 where
  adds removes : (task_id depends_on : String) → Call
  removes_task asks_dependencies asks_dependents : (task_id : String) → Call

-- A call that fails leaves the graph as it was.
abbrev pub after : DependencyGraph → Outcome DependencyGraph → DependencyGraph
after g (ok g') = g'
after g (err e) = g

unfoldable pub call : DependencyGraph → Call → DependencyGraph
call g (adds a b) = after g (add_edge g a b)
call g (removes a b) = after g (remove_edge g a b)
call g (removes_task t) = after g (remove_task g t)
call g (asks_dependencies t) = (get_all_dependencies g t).1
call g (asks_dependents t) = (get_all_dependents g t).1

unfoldable pub calls : DependencyGraph → List Call → DependencyGraph
unfolding call
calls g [] = g
calls g (c ∷ cs) = calls (call g c) cs

validate_cases :
    (t : String) → (validate_task_id t ≡ ok tt) ⊎ (validate_task_id t ≡ err invalid_operation)
unfolding validate_task_id
validate_cases t = ground arith

-- The three mutators keep any property that their edits keep.
module _ (P : DependencyGraph → Type 0) (g : DependencyGraph) (p : P g) where
  pub add_cases :
      (a b : String)
      → P (add_edge_internal (invalidate_transitive_caches g a b) a b)
      → P (after g (add_edge g a b))
  unfolding add_edge
  add_cases a b q = elim (validate_cases a) [
    | inr e ↦ rw (e, add_edge) p
    | inl e ↦ elim (validate_cases b) [
      | inr e' ↦ rw (e, e', add_edge) p
      | inl e' ↦ rw (e, e', add_edge) q
    ]
  ]

  pub remove_cases :
      (a b : String)
      → P (remove_edge_internal (invalidate_transitive_caches g a b) a b)
      → P (after g (remove_edge g a b))
  unfolding remove_edge
  remove_cases a b q = elim (validate_cases a) [
    | inr e ↦ rw (e, remove_edge) p
    | inl e ↦ elim (validate_cases b) [
      | inr e' ↦ rw (e, e', remove_edge) p
      | inl e' ↦ rw (e, e', remove_edge) q
    ]
  ]

  pub remove_task_cases :
      (t : String) → P (remove_task_internal (forget_task g t) t) → P (after g (remove_task g t))
  unfolding remove_task
  remove_task_cases t q = elim (validate_cases t) [
    | inr e ↦ rw (e, remove_task) p
    | inl e ↦ rw (e, remove_task) q
  ]

pub call-IsCoherent : (g : DependencyGraph) (c : Call) → IsCoherent g → IsCoherent (call g c)
unfolding call
call-IsCoherent g (adds a b) v = add_cases IsCoherent g v a b (add-IsCoherent g v a b)
call-IsCoherent g (removes a b) v = remove_cases IsCoherent g v a b (remove-IsCoherent g v a b)
call-IsCoherent g (removes_task t) v =
    remove_task_cases IsCoherent g v t (remove_task-IsCoherent g v t)
call-IsCoherent g (asks_dependencies t) v = (get_all_dependencies_lem g v t).1
call-IsCoherent g (asks_dependents t) v = (get_all_dependents_lem g v t).1

pub calls-IsCoherent :
    (g : DependencyGraph) (cs : List Call) → IsCoherent g → IsCoherent (calls g cs)
unfolding calls
calls-IsCoherent g [] v = v
calls-IsCoherent g (c ∷ cs) v = calls-IsCoherent (call g c) cs (call-IsCoherent g c v)

-- The constructor's tables are empty.
abbrev IsFresh : DependencyGraph → Type 0
IsFresh g = (g.dependencies_cache ≡ []) × (g.dependents_cache ≡ [])

add_all-IsConsistent :
    (g : DependencyGraph) (ds : List (String × String))
    → IsConsistent g
    → IsFresh g
    → IsConsistent (add_all g ds) × IsFresh (add_all g ds)
unfolding add_all add_edge_internal
add_all-IsConsistent g [] v f = (v, f)
add_all-IsConsistent g ((t, d) ∷ ds) v f =
    add_all-IsConsistent (add_edge_internal g t d) ds (add-IsConsistent g t d v) f

empty-IsCached : (m : Adjacency) (c : Dict (List String)) → c ≡ [] → IsCached m c
unfolding Dict.get
empty-IsCached m c e k xs found y = cc (subst (λ d. Dict.get d k ≡ some xs) e found)

pub nothing : (x y : String) → ¬ (y ∈ neighbours [] x)
unfolding neighbours Dict.get
nothing x y h = h

nothing_reversed : IsReverse [] []
nothing_reversed x y = (λ h. absurd (nothing x y h), λ h. absurd (nothing y x h))

pub new-IsCoherent : (ds : List (String × String)) → IsCoherent (new ds)
unfolding new
new-IsCoherent ds =
    let empty : DependencyGraph = record {
      graph = [];
      reverse_graph = [];
      dependencies_cache = [];
      dependents_cache = [];
    } in
    let (v, (f, f')) = add_all-IsConsistent empty ds nothing_reversed (refl, refl) in
    record {
      consistent = v;
      dependencies = empty-IsCached _ _ f;
      dependents = empty-IsCached _ _ f';
    }

-- After any history each query answers with exactly the tasks that can be reached.
module _ (ds : List (String × String)) (cs : List Call) (k y : String) where
  abbrev reached : DependencyGraph
  reached = calls (new ds) cs

  ever-IsCoherent : IsCoherent reached
  ever-IsCoherent = calls-IsCoherent (new ds) cs (new-IsCoherent ds)

  -- After any history of calls on a new graph, cached answers included, `getAllDependencies` lists
  -- a task exactly when a path of dependencies leads to it.
  pub get_all_dependencies-Reaches :
      (y ∈ (get_all_dependencies (calls (new ds) cs) k).0) ↔ Reaches (calls (new ds) cs).graph k y
  get_all_dependencies-Reaches = (get_all_dependencies_lem reached ever-IsCoherent k).0 y

  -- After any history of calls on a new graph, cached answers included, `getAllDependents` lists a
  -- task exactly when a path of dependencies leads from that task to the one asked about.
  pub get_all_dependents-Reaches :
      (y ∈ (get_all_dependents (calls (new ds) cs) k).0) ↔ Reaches (calls (new ds) cs).graph y k
  get_all_dependents-Reaches =
      let listed = (get_all_dependents_lem reached ever-IsCoherent k).0 y in
      let edges = ever-IsCoherent.consistent in
      (
        λ h. Reaches-reverse (IsReverse-sym reached.graph reached.reverse_graph edges) (listed.0 h),
        λ p. listed.1 (Reaches-reverse edges p),
      )
