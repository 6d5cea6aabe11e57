-- ===== src/Graph/Edges.antt =====
-- What the mutating methods of `DependencyGraph` do to the edges of its two adjacency lists.
use autobeat.Prelude.{String, ◌≡◌, ◌≢◌, inl, inr, ◌↔◌, ◌∈◌, arith}
use autobeat.Prelude.Dict
use autobeat.Adjacency.{Adjacency, neighbours, ensure, link, unlink, drop_phantom, unlink_all}
use autobeat.Adjacency.Paths.{IsReverse, IsExtended, AgreesOff}
use autobeat.Adjacency.Edits.{
  neighbours-ensure, neighbours-drop_phantom, neighbours-delete, ∈-link, ∈-unlink, ∈-unlink_all,
}
use autobeat.Graph.{DependencyGraph, add_edge_internal, remove_edge_internal, remove_task_internal}

-- Each edge stands in both lists.
abbrev pub IsConsistent : DependencyGraph → Type 0
IsConsistent g = IsReverse g.graph g.reverse_graph

pub link-IsExtended : (m : Adjacency) (a b c : String) → IsExtended m (ensure (link m a b) c) a b
link-IsExtended m a b c x y = rw (neighbours-ensure (link m a b) c x) (∈-link m a b x y)

-- One edge is taken away.
abbrev pub IsReduced : Adjacency → Adjacency → String → String → Type 0
IsReduced m n a b =
    (x y : String) → (y ∈ neighbours n x) ↔ ((y ∈ neighbours m x) × ¬ ((x ≡ a) × (y ≡ b)))

unlink-IsReduced :
    (m : Adjacency) (a b c : String) → IsReduced m (drop_phantom (unlink m a b) c) a b
unlink-IsReduced m a b c x y = rw (neighbours-drop_phantom (unlink m a b) c x) (∈-unlink m a b x y)

module _ (g : DependencyGraph) (a b : String) where
  pub add-graph : IsExtended g.graph (add_edge_internal g a b).graph a b
  unfolding add_edge_internal
  add-graph = link-IsExtended g.graph a b b

  pub add-reverse : IsExtended g.reverse_graph (add_edge_internal g a b).reverse_graph b a
  unfolding add_edge_internal
  add-reverse = link-IsExtended g.reverse_graph b a a

  pub remove-graph : IsReduced g.graph (remove_edge_internal g a b).graph a b
  unfolding remove_edge_internal
  remove-graph = unlink-IsReduced g.graph a b b

  pub remove-reverse : IsReduced g.reverse_graph (remove_edge_internal g a b).reverse_graph b a
  unfolding remove_edge_internal
  remove-reverse = unlink-IsReduced g.reverse_graph b a a

  pub add-IsConsistent : IsConsistent g → IsConsistent (add_edge_internal g a b)
  add-IsConsistent v x y = ground (arith, add-graph x y, add-reverse y x, v x y)

  pub remove-IsConsistent : IsConsistent g → IsConsistent (remove_edge_internal g a b)
  remove-IsConsistent v x y = ground (arith, remove-graph x y, remove-reverse y x, v x y)

-- A task's edges are gone, in either direction.
abbrev pub IsWithout : Adjacency → Adjacency → String → Type 0
IsWithout m n t = (x y : String) → (y ∈ neighbours n x) ↔ ((y ∈ neighbours m x) × (x ≢ t) × (y ≢ t))

∈-delete_key :
    (m : Adjacency) (k x y : String)
    → (y ∈ neighbours (Dict.delete m k) x) ↔ ((y ∈ neighbours m x) × (x ≢ k))
∈-delete_key m k x y = ground (arith, neighbours-delete m k x)

module _ (g : DependencyGraph) (t : String) (v : IsConsistent g) where
  abbrev rest : Adjacency
  rest = unlink_all g.reverse_graph (neighbours g.graph t) t

  ∈-rest :
      (x y : String)
      → (y ∈ neighbours rest x)
        ↔ ((y ∈ neighbours g.reverse_graph x) × ¬ ((x ∈ neighbours g.graph t) × (y ≡ t)))
  ∈-rest x y = ∈-unlink_all g.reverse_graph (neighbours g.graph t) t x y

  pub remove_task-graph : IsWithout g.graph (remove_task_internal g t).graph t
  unfolding remove_task_internal
  remove_task-graph x y = ground (
    arith,
    ∈-unlink_all (Dict.delete g.graph t) (neighbours rest t) t x y,
    ∈-delete_key g.graph t x y,
    ∈-rest t x,
    v x y,
    v x t,
  )

  pub remove_task-reverse : IsWithout g.reverse_graph (remove_task_internal g t).reverse_graph t
  unfolding remove_task_internal
  remove_task-reverse x y = ground (arith, ∈-delete_key rest t x y, ∈-rest x y, v t x, v y x)

  pub remove_task-IsConsistent : IsConsistent (remove_task_internal g t)
  remove_task-IsConsistent x y =
      ground (arith, remove_task-graph x y, remove_task-reverse y x, v x y)

-- How each kind of change looks from a node that it does not touch.
pub IsExtended-AgreesOff : (m n : Adjacency) (a b : String) → IsExtended m n a b → AgreesOff a m n
IsExtended-AgreesOff m n a b e = record {
  back = λ x y ne h. elim ((e x y).0 h) [ inl old ↦ old | inr (same, _) ↦ absurd (ne same) ];
  forth = λ x y ne me h. (e x y).1 (inl h);
}

pub IsReduced-AgreesOff : (m n : Adjacency) (a b : String) → IsReduced m n a b → AgreesOff a m n
IsReduced-AgreesOff m n a b e = record {
  back = λ x y ne h. ((e x y).0 h).0;
  forth = λ x y ne me h. (e x y).1 (h, λ p. ne p.0);
}

pub IsWithout-AgreesOff : (m n : Adjacency) (t : String) → IsWithout m n t → AgreesOff t m n
IsWithout-AgreesOff m n t e = record {
  back = λ x y ne h. ((e x y).0 h).0;
  forth = λ x y ne me h. (e x y).1 (h, ne, me);
}
