-- ===== src/Dependencies/Batch.antt =====
-- Several edges from one task at once: what the validations of src/services/handlers/dependency-handler.ts
-- against the old graph say of the new one.
use autobeat.Prelude.{
  ℕ, suc, ◌≤◌, String, List, ◌≡◌, ◌≢◌, ◌⊎◌, inl, inr, ◌∈◌, refl, sym, ◌∙◌, subst, arith,
}
use autobeat.Adjacency.{Adjacency, neighbours}
use autobeat.Adjacency.Paths.{Reaches, edge, step, Reaches-trans, IsAcyclic}
use autobeat.Depth.Longest.{Chain, stop, link}

-- The new edges lead from `t` into the list.
abbrev pub IsBatch : Adjacency → Adjacency → String → List String → Type 0
IsBatch m n t ds = (x y : String) → y ∈ neighbours n x → (y ∈ neighbours m x) ⊎ ((x ≡ t) × (y ∈ ds))

module _ (m n : Adjacency) (t : String) (ds : List String) (batch : IsBatch m n t ds) where
  -- A path through a new edge: up to `t`, and on from its end.
  abbrev Through : String → String → Type 0
  Through x y = ((x ≡ t) ⊎ Reaches m x t) × ((d : String) × (d ∈ ds) × ((d ≡ y) ⊎ Reaches m d y))

  before :
      {x z y : String}
      → z ∈ neighbours m x
      → Reaches m z y ⊎ Through z y
      → Reaches m x y ⊎ Through x y
  before h (inl q) = inl (step h q)
  before {x} h (inr (inl e, rest)) = inr (inr (edge (subst (λ z. z ∈ neighbours m x) e h)), rest)
  before h (inr (inr q, rest)) = inr (inr (step h q), rest)

  Reaches-batch : {x y : String} → Reaches n x y → Reaches m x y ⊎ Through x y
  Reaches-batch (edge h) = elim (batch _ _ h) [
    | inl old ↦ inl (edge old)
    | inr (e, new) ↦ inr (inl e, (_, new, inl refl))
  ]
  Reaches-batch (step h p) = elim (batch _ _ h) [
    | inl old ↦ before old (Reaches-batch p)
    | inr (e, new) ↦ elim (Reaches-batch p) [
      | inl q ↦ inr (inl e, (_, new, inr q))
      | inr (_, rest) ↦ inr (inl e, rest)
    ]
  ]

  -- Each end was checked against the old graph alone, and that is enough.
  pub batch-IsAcyclic :
      IsAcyclic m → ((d : String) → d ∈ ds → ¬ ((t ≡ d) ⊎ Reaches m d t)) → IsAcyclic n
  batch-IsAcyclic acyclic free x p = elim (Reaches-batch p) [
    | inl q ↦ acyclic x q
    | inr (inl e, (d, h, inl e')) ↦ free d h (inl (sym (e' ∙ e)))
    | inr (inl e, (d, h, inr q)) ↦ free d h (inr (subst (Reaches m d) e q))
    | inr (inr q, (d, h, inl e)) ↦ free d h (inr (subst (λ z. Reaches m z t) (sym e) q))
    | inr (inr q, (d, h, inr r)) ↦ free d h (inr (Reaches-trans r q))
  ]

  module _ (loopless : (d : String) → d ∈ ds → t ≢ d)
      (unused : (x : String) → ¬ (t ∈ neighbours m x)) where
    not-into : (x y : String) → y ∈ neighbours n x → y ≢ t
    not-into x y h e = elim (batch x y h) [
      | inl old ↦ unused x (subst (λ z. z ∈ neighbours m x) e old)
      | inr (_, new) ↦ loopless y new (sym e)
    ]

    Chain-old : {x : String} {k : ℕ} → x ≢ t → Chain n x k → Chain m x k
    Chain-old ne stop = stop
    Chain-old ne (link h c) = elim (batch _ _ h) [
      | inl old ↦ link old (Chain-old (not-into _ _ h) c)
      | inr (e, _) ↦ absurd (ne e)
    ]

    -- No chain grows past the limit, if nothing depends on `t` yet.
    pub Chain-le :
        (limit : ℕ)
        → ((x : String) (k : ℕ) → Chain m x k → k ≤ limit)
        → ((d : String) → d ∈ ds → (k : ℕ) → Chain m d k → suc k ≤ limit)
        → (x : String) (k : ℕ) → Chain n x k
        → k ≤ limit
    Chain-le limit old new x _ stop = omega arith
    Chain-le limit old new x _ (link {y = y} {n = k} h c) = elim (batch x y h) [
      | inl there ↦ old x (suc k) (link there (Chain-old (not-into x y h) c))
      | inr (_, d) ↦ new y d k (Chain-old (not-into x y h) c)
    ]
