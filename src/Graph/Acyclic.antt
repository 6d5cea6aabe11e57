-- ===== src/Graph/Acyclic.antt =====
-- The cycle checks of `DependencyGraph`, and the guard that keeps the graph acyclic.
use autobeat.Prelude.{
  String, true, false, some, [], ◌≡◌, ◌≢◌, ◌⊎◌, inl, inr, ◌↔◌, ◌∈◌, refl, arith, sym, subst, ◌∙◌,
  Bool-cases, String-discrete,
}
use autobeat.Adjacency.{Adjacency, link, ensure, neighbours}
use autobeat.Adjacency.Paths.{
  Reaches, edge, IsAcyclic, IsAcyclic-mono, Reaches-mono, Reaches-trans, Reaches-split,
  IsExtended-IsAcyclic,
}
use autobeat.Search.{detect_cycle_dfs, fuel_for}
use autobeat.Search.Detect.{IsClear, Trouble, not-IsClear_loop}
use autobeat.Search.Verdict.{detect_cycle_dfs-Trouble, has_cycle_from_iff}
use autobeat.Graph.{
  DependencyGraph, would_create_cycle, has_cycle, add_edge_internal, remove_edge_internal,
  remove_task_internal,
}
use autobeat.Graph.Edges.{IsConsistent, link-IsExtended, add-graph, remove-graph, remove_task-graph}

-- `hasCycle` answers false exactly on the acyclic graphs.
pub has_cycle_iff : (g : DependencyGraph) → (has_cycle g ≡ false) ↔ IsAcyclic g.graph
unfolding has_cycle
has_cycle_iff g = has_cycle_from_iff g.graph

module _ (g : DependencyGraph) (a b : String) (ac : IsAcyclic g.graph) where
  abbrev temp : Adjacency
  temp = ensure (link g.graph a b) b

  abbrev Closes : Type 0
  Closes = (a ≡ b) ⊎ Reaches g.graph b a

  into_temp : {x y : String} → Reaches g.graph x y → Reaches temp x y
  into_temp = Reaches-mono (λ x y h. (link-IsExtended g.graph a b b x y).1 (inl h))

  new_edge : b ∈ neighbours temp a
  new_edge = (link-IsExtended g.graph a b b a b).1 (inr (refl, refl))

  join : {x : String} → (b ≡ x) ⊎ Reaches g.graph b x → (x ≡ a) ⊎ Reaches g.graph x a → Closes
  join (inl e) (inl e') = inl (sym (e ∙ e'))
  join (inl e) (inr q) = inr (subst (λ z. Reaches g.graph z a) (sym e) q)
  join (inr p) (inl e) = inr (subst (λ z. Reaches g.graph b z) e p)
  join (inr p) (inr q) = inr (Reaches-trans p q)

  way-Closes : Reaches temp b a → Closes
  way-Closes p = elim (Reaches-split (link-IsExtended g.graph a b b) p) [
    | inl q ↦ inr q
    | inr (inl e, _) ↦ inl (sym e)
    | inr (inr q, _) ↦ inr q
  ]

  Trouble-Closes : Trouble temp (some a) b → Closes
  Trouble-Closes (x, inl e, inl (t, _)) = inl (sym (e ∙ t))
  Trouble-Closes (x, inr p, inl (t, _)) = way-Closes (subst (Reaches temp b) t p)
  Trouble-Closes (x, way, inr loop) = elim (Reaches-split (link-IsExtended g.graph a b b) loop) [
    | inl q ↦ absurd (ac x q)
    | inr (before, after) ↦ join after before
  ]

  IsClear-Closes : IsClear temp (some a) b → ¬ Reaches g.graph b a
  IsClear-Closes c p = not-IsClear_loop c (Reaches-trans (into_temp p) (edge new_edge))

  would_self : a ≡ b → would_create_cycle g a b ≡ true
  unfolding would_create_cycle
  would_self e = ground arith

  would_search :
      a ≢ b
      → would_create_cycle g a b
        ≡ (detect_cycle_dfs (fuel_for temp) temp (some a) b (record { visited = []; stack = [] })).0
  unfolding would_create_cycle
  would_search ne = ground arith

  would_true : would_create_cycle g a b ≡ true → Closes
  would_true e = elim (String-discrete a b) [
    | yes same ↦ inl same
    | no ne ↦
        Trouble-Closes ((detect_cycle_dfs-Trouble temp (some a) b).0 (rw (would_search ne) at e))
  ]

  would_false : would_create_cycle g a b ≡ false → ¬ Closes
  would_false e (inl same) = cc (would_self same)
  would_false e (inr p) = elim (String-discrete a b) [
    | yes same ↦ cc (would_self same)
    | no ne ↦
        IsClear-Closes ((detect_cycle_dfs-Trouble temp (some a) b).1 (rw (would_search ne) at e)) p
  ]

  -- On an acyclic graph an edge is reported exactly when it is a loop or its target already
  -- reaches its source.
  pub would_create_cycle_iff : (would_create_cycle g a b ≡ true) ↔ ((a ≡ b) ⊎ Reaches g.graph b a)
  would_create_cycle_iff = (
    would_true,
    λ c. elim (Bool-cases (would_create_cycle g a b)) [
      | inl t ↦ t
      | inr f ↦ absurd (would_false f c)
    ],
  )

  pub add-IsAcyclic : would_create_cycle g a b ≡ false → IsAcyclic (add_edge_internal g a b).graph
  add-IsAcyclic e = IsExtended-IsAcyclic (add-graph g a b) ac (would_false e)

  pub remove-IsAcyclic : IsAcyclic (remove_edge_internal g a b).graph
  remove-IsAcyclic = IsAcyclic-mono (λ x y h. ((remove-graph g a b x y).0 h).0) ac

pub remove_task-IsAcyclic :
    (g : DependencyGraph) (t : String)
    → IsConsistent g
    → IsAcyclic g.graph
    → IsAcyclic (remove_task_internal g t).graph
remove_task-IsAcyclic g t v = IsAcyclic-mono (λ x y h. ((remove_task-graph g t v x y).0 h).0)
