-- ===== src/Adjacency/Paths.antt =====
-- Reachability in an adjacency list, the independent notion that the searches are held to.
use autobeat.Prelude.{String, ◌≡◌, ◌≢◌, ◌⊎◌, inl, inr, ◌↔◌, ◌∈◌, subst, sym, ◌∙◌}
use autobeat.Adjacency.{Adjacency, neighbours}

-- A path of at least one edge.
pub data Reaches (m : Adjacency) : String → String → Type 0 where
  edge : {x y : String} → y ∈ neighbours m x → Reaches m x y
  step : {x y z : String} → y ∈ neighbours m x → Reaches m y z → Reaches m x z

pub Reaches-trans : {m : Adjacency} {x y z : String} → Reaches m x y → Reaches m y z → Reaches m x z
Reaches-trans (edge h) q = step h q
Reaches-trans (step h p) q = step h (Reaches-trans p q)

-- No task depends on itself, however indirectly.
abbrev pub IsAcyclic : Adjacency → Type 0
IsAcyclic m = (x : String) → ¬ (Reaches m x x)

-- Every edge of one list is an edge of another.
abbrev pub IsBelow : Adjacency → Adjacency → Type 0
IsBelow m n = (x y : String) → y ∈ neighbours m x → y ∈ neighbours n x

pub Reaches-mono : {m n : Adjacency} {x y : String} → IsBelow m n → Reaches m x y → Reaches n x y
Reaches-mono b (edge h) = edge (b _ _ h)
Reaches-mono b (step h p) = step (b _ _ h) (Reaches-mono b p)

pub IsAcyclic-mono : {m n : Adjacency} → IsBelow m n → IsAcyclic n → IsAcyclic m
IsAcyclic-mono b a x p = a x (Reaches-mono b p)

-- The same edges, turned round.
abbrev pub IsReverse : Adjacency → Adjacency → Type 0
IsReverse m r =
    (x y : String)
    → ((y ∈ neighbours m x) → (x ∈ neighbours r y)) × ((x ∈ neighbours r y) → (y ∈ neighbours m x))

pub Reaches-snoc :
    {m : Adjacency} {x y z : String} → Reaches m x y → z ∈ neighbours m y → Reaches m x z
Reaches-snoc p h = Reaches-trans p (edge h)

pub Reaches-reverse :
    {m r : Adjacency} {x y : String} → IsReverse m r → Reaches m x y → Reaches r y x
Reaches-reverse v (edge h) = edge ((v _ _).0 h)
Reaches-reverse v (step h p) = Reaches-snoc (Reaches-reverse v p) ((v _ _).0 h)

pub IsReverse-sym : (m r : Adjacency) → IsReverse m r → IsReverse r m
IsReverse-sym m r v x y = ((v y x).1, (v y x).0)

-- One edge is added.
abbrev pub IsExtended : Adjacency → Adjacency → String → String → Type 0
IsExtended m n a b =
    (x y : String) → (y ∈ neighbours n x) ↔ ((y ∈ neighbours m x) ⊎ ((x ≡ a) × (y ≡ b)))

module _ {m n : Adjacency} {a b : String} (e : IsExtended m n a b) where
  -- A path either keeps to the old edges or goes through the new one.
  pub Reaches-split :
      {x y : String}
      → Reaches n x y
      → Reaches m x y ⊎ (((x ≡ a) ⊎ Reaches m x a) × ((b ≡ y) ⊎ Reaches m b y))
  Reaches-split (edge h) = elim ((e _ _).0 h) [
    | inl old ↦ inl (edge old)
    | inr (ea, eb) ↦ inr (inl ea, inl (sym eb))
  ]
  Reaches-split {x} {y} (step h p) = elim ((e _ _).0 h) [
    | inl old ↦ elim (Reaches-split p) [
      | inl q ↦ inl (step old q)
      | inr (inl same, tail) ↦ inr (inr (edge (subst (λ z. z ∈ neighbours m x) same old)), tail)
      | inr (inr q, tail) ↦ inr (inr (step old q), tail)
    ]
    | inr (ea, eb) ↦ elim (Reaches-split p) [
      | inl q ↦ inr (inl ea, inr (subst (λ z. Reaches m z y) eb q))
      | inr (_, tail) ↦ inr (inl ea, tail)
    ]
  ]

  -- The new list has a cycle exactly when the old one has, or when the edge closes one.
  pub IsExtended-IsAcyclic : IsAcyclic m → ¬ ((a ≡ b) ⊎ Reaches m b a) → IsAcyclic n
  IsExtended-IsAcyclic ac no_way x p = elim (Reaches-split p) [
    | inl q ↦ ac x q
    | inr (inl xa, inl bx) ↦ no_way (inl (sym xa ∙ sym bx))
    | inr (inl xa, inr q) ↦ no_way (inr (subst (λ z. Reaches m b z) xa q))
    | inr (inr q, inl bx) ↦ no_way (inr (subst (λ z. Reaches m z a) (sym bx) q))
    | inr (inr q, inr r) ↦ no_way (inr (Reaches-trans r q))
  ]

-- The lists differ only at edges from or to `a`, and the second has no new edge but from `a`.
pub record AgreesOff (a : String) (m n : Adjacency) : Type 0 where
  pub back : (x y : String) → x ≢ a → y ∈ neighbours n x → y ∈ neighbours m x
  pub forth : (x y : String) → x ≢ a → y ≢ a → y ∈ neighbours m x → y ∈ neighbours n x

module _ {a : String} {m n : Adjacency} (g : AgreesOff a m n) where
  -- What cannot reach `a` reaches the same as before.
  Reaches-forth : {x y : String} → x ≢ a → ¬ Reaches m x a → Reaches m x y → Reaches n x y
  Reaches-forth {x} {y} ne off (edge h) =
      edge (g.forth x y ne (λ e. off (subst (Reaches m x) e (edge h))) h)
  Reaches-forth {x} ne off (step {y = z} h p) =
      let apart : z ≢ a = λ e. off (subst (Reaches m x) e (edge h)) in
      step (g.forth x z ne apart h) (Reaches-forth apart (λ q. off (step h q)) p)

  Reaches-back : {x y : String} → x ≢ a → ¬ Reaches m x a → Reaches n x y → Reaches m x y
  Reaches-back {x} {y} ne off (edge h) = edge (g.back x y ne h)
  Reaches-back {x} ne off (step {y = z} h p) =
      let old : z ∈ neighbours m x = g.back x z ne h in
      let apart : z ≢ a = λ e. off (subst (Reaches m x) e (edge old)) in
      step old (Reaches-back apart (λ q. off (step old q)) p)

  pub Reaches-off : (x y : String) → x ≢ a → ¬ Reaches m x a → Reaches m x y ↔ Reaches n x y
  Reaches-off x y ne off = (Reaches-forth ne off, Reaches-back ne off)
