-- ===== src/Search/Detect.antt =====
-- The branches of `detectCycleDFS`, what its answers mean, and its loop over the neighbours.
use autobeat.Prelude.{
  ℕ, suc, ◌<◌, String, Bool, true, false, Option, List, [], ◌∷◌, ◌≡◌, refl, ◌⊎◌, inl, inr, ◌∈◌,
  arith, add, delete, keys_left, keys_left_mono, subst, if◌then◌else◌,
}
use autobeat.Prelude.Dict.{keys}
use autobeat.Adjacency.{Adjacency, neighbours}
use autobeat.Adjacency.Paths.{Reaches, edge, step, Reaches-snoc}
use autobeat.Search.{Search, IsTarget, detect_each, detect_cycle_dfs}

module _ (m : Adjacency) (t : Option String) where
  -- Neither the target nor a cycle lies ahead: every path from here ends.
  pub data IsClear : String → Type 0 where
    clear :
        {v : String} → ¬ IsTarget t v → ((w : String) → w ∈ neighbours m v → IsClear w) → IsClear v

  -- The target or a node on a cycle can be reached, or is here.
  abbrev pub Trouble : String → Type 0
  Trouble v = (x : String) × ((v ≡ x) ⊎ Reaches m v x) × (IsTarget t x ⊎ Reaches m x x)

module _ {m : Adjacency} {t : Option String} where
  IsClear-next : {v w : String} → IsClear m t v → w ∈ neighbours m v → IsClear m t w
  IsClear-next (clear nt all) h = all _ h

  pub IsClear-Reaches : {v w : String} → IsClear m t v → Reaches m v w → IsClear m t w
  IsClear-Reaches c (edge h) = IsClear-next c h
  IsClear-Reaches c (step h p) = IsClear-Reaches (IsClear-next c h) p

  pub not-IsClear_loop : {v : String} → IsClear m t v → ¬ Reaches m v v
  not-IsClear_loop (clear nt all) (edge h) = not-IsClear_loop (all _ h) (edge h)
  not-IsClear_loop (clear nt all) (step h p) = not-IsClear_loop (all _ h) (Reaches-snoc p h)

  IsClear-self : {v : String} → IsClear m t v → ¬ (IsTarget t v ⊎ Reaches m v v)
  IsClear-self (clear nt all) (inl h) = nt h
  IsClear-self (clear nt all) (inr p) = not-IsClear_loop (clear nt all) p

  pub not-Trouble : {v : String} → IsClear m t v → ¬ Trouble m t v
  not-Trouble c (x, inl e, bad) = IsClear-self (subst (IsClear m t) e c) bad
  not-Trouble c (x, inr p, bad) = IsClear-self (IsClear-Reaches c p) bad

abbrev pub enter : Search → String → Search
enter s x = record { visited = add s.visited x; stack = add s.stack x }

abbrev pub leave : Search → String → Search
leave s x = record s { stack = delete s.stack x }

-- The branches of the two functions.
module _ (fuel : ℕ) (m : Adjacency) (t : Option String) (x : String) (s : Search) where
  pub detect_target : IsTarget t x → detect_cycle_dfs (suc fuel) m t x s ≡ (true, s)
  unfolding detect_cycle_dfs
  detect_target h = ground arith

  pub detect_stack : ¬ IsTarget t x → x ∈ s.stack → detect_cycle_dfs (suc fuel) m t x s ≡ (true, s)
  unfolding detect_cycle_dfs
  detect_stack n h = ground arith

  pub detect_visited :
      ¬ IsTarget t x
      → ¬ (x ∈ s.stack)
      → x ∈ s.visited
      → detect_cycle_dfs (suc fuel) m t x s ≡ (false, s)
  unfolding detect_cycle_dfs
  detect_visited n k h = ground arith

  pub detect_new :
      ¬ IsTarget t x
      → ¬ (x ∈ s.stack)
      → ¬ (x ∈ s.visited)
      → let r = detect_each (detect_cycle_dfs fuel m t) (neighbours m x) (enter s x) in
        detect_cycle_dfs (suc fuel) m t x s ≡ (if r.0 then (true, r.1) else (false, leave r.1 x))
  unfolding detect_cycle_dfs
  detect_new n k h = ground arith

module _ (visit : String → Search → Bool × Search) (n : String) (ns : List String)
    (s : Search) where
  detect_each_found : (visit n s).0 ≡ true → detect_each visit (n ∷ ns) s ≡ (true, (visit n s).1)
  unfolding detect_each
  detect_each_found e = ground arith

  detect_each_next :
      (visit n s).0 ≡ false → detect_each visit (n ∷ ns) s ≡ detect_each visit ns (visit n s).1
  unfolding detect_each
  detect_each_next e = ground arith

module _ (m : Adjacency) (t : Option String) where
  -- A node that was visited and left is clear.
  abbrev pub IsSettled : Search → Type 0
  IsSettled s = (v : String) → v ∈ s.visited → ¬ (v ∈ s.stack) → IsClear m t v

  pub record Passed (s s' : Search) : Type 0 where
    pub kept : (v : String) → v ∈ s.visited → v ∈ s'.visited
    pub restored : s'.stack ≡ s.stack
    pub settled : IsSettled s'

  abbrev pub left : Search → ℕ
  left s = keys_left (keys m) s.visited

  abbrev pub Answers : Search → String → Bool × Search → Type 0
  Answers s x r = ((r.0 ≡ false) × IsClear m t x × Passed s r.1) ⊎ ((r.0 ≡ true) × Trouble m t x)

  abbrev pub Detects : ℕ → (String → Search → Bool × Search) → Type 0
  Detects fuel visit =
      (x : String) (s : Search)
      → IsSettled s
      → left s < fuel
      → ((c : String) → c ∈ s.stack → Reaches m c x)
      → Answers s x (visit x s)

  abbrev pub EachAnswers : Search → List String → Bool × Search → Type 0
  EachAnswers s ns r =
      ((r.0 ≡ false) × ((n : String) → n ∈ ns → IsClear m t n) × Passed s r.1)
      ⊎ ((r.0 ≡ true) × ((n : String) × (n ∈ ns) × Trouble m t n))

  Passed-trans : {a b c : Search} → Passed a b → Passed b c → Passed a c
  Passed-trans p q = record {
    kept = λ v h. q.kept v (p.kept v h);
    restored = cc (p.restored, q.restored);
    settled = q.settled;
  }

  pub detect_each-Answers :
      (fuel : ℕ) (visit : String → Search → Bool × Search)
      → Detects fuel visit
      → (ns : List String) (s : Search) → IsSettled s
      → left s < fuel
      → ((n c : String) → n ∈ ns → c ∈ s.stack → Reaches m c n)
      → EachAnswers s ns (detect_each visit ns s)
  unfolding detect_each
  detect_each-Answers fuel visit d [] s ok lt r =
      inl (refl, (λ n h. absurd h), record { kept = λ v h. h; restored = refl; settled = ok })
  detect_each-Answers fuel visit d (n ∷ ns) s ok lt r = elim (d n s ok lt (λ c. r n c (inl refl))) [
    | inr (e, bad) ↦ rw (detect_each_found visit n ns s e) (inr (refl, (n, inl refl, bad)))
    | inl (e, good, p) ↦
        let s' = (visit n s).1 in
        let fewer : left s' < fuel =
          omega (arith, keys_left_mono (keys m) s.visited s'.visited p.kept) in
        let more =
          detect_each-Answers fuel visit d ns s' p.settled fewer
            (λ k c h on. r k c (inr h) (rw p.restored at on)) in
        rw (detect_each_next visit n ns s e) (elim more [
          | inr (e', (k, h, bad)) ↦ inr (e', (k, inr h, bad))
          | inl (e', all, q) ↦
              inl (
                e',
                (λ k h. elim h [ inl same ↦ rw same good | inr l ↦ all k l ]),
                Passed-trans p q,
              )
        ])
  ]
