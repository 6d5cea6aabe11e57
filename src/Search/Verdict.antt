-- ===== src/Search/Verdict.antt =====
-- `detectCycleDFS` answers whether the target or a cycle can be reached, and `hasCycle` whether
-- there is a cycle at all.
use autobeat.Prelude.{
  ℕ, zero, suc, ◌<◌, String, Bool, true, false, Option, none, List, [], ◌∷◌, ◌≡◌, refl, ◌⊎◌, inl,
  inr, ◌↔◌, ◌∈◌, arith, dec_in, add, ∈-add, ∈-add_old, ∈-add_new, delete-add, keys_left-add,
  keys_left-le, subst,
}
use autobeat.Prelude.Dict.{keys}
use autobeat.Adjacency.{Adjacency, neighbours}
use autobeat.Adjacency.Paths.{Reaches, edge, step, Reaches-snoc, IsAcyclic}
use autobeat.Search.{
  Search, IsTarget, dec_target, detect_each, detect_cycle_dfs, fuel_for, has_cycle_from,
}
use autobeat.Search.Collect.{neighbours-keys}
use autobeat.Search.Detect.{
  IsClear, clear, Trouble, not-IsClear_loop, enter, leave, IsSettled, Passed, left, Answers,
  Detects, EachAnswers, detect_target, detect_stack, detect_visited, detect_new,
  detect_each-Answers,
}

module _ (m : Adjacency) (t : Option String) where
  Trouble-step : {v w : String} → w ∈ neighbours m v → Trouble m t w → Trouble m t v
  Trouble-step {v} h (x, inl e, bad) = (x, inr (edge (subst (λ y. y ∈ neighbours m v) e h)), bad)
  Trouble-step h (x, inr p, bad) = (x, inr (step h p), bad)

  module _ (fuel : ℕ) (d : Detects m t fuel (detect_cycle_dfs fuel m t)) (x : String) (s : Search)
      (ok : IsSettled m t s) (lt : left m t s < suc fuel)
      (on : (c : String) → c ∈ s.stack → Reaches m c x) (apart : ¬ (x ∈ s.stack))
      (new : ¬ (x ∈ s.visited)) where
    enter-IsSettled : IsSettled m t (enter s x)
    enter-IsSettled v h n = elim ((∈-add v s.visited x).0 h) [
      | inl old ↦ ok v old (λ k. n (∈-add_old v s.stack x k))
      | inr same ↦ absurd (n (rw same (∈-add_new s.stack x)))
    ]

    enter_on : (n c : String) → n ∈ neighbours m x → c ∈ add s.stack x → Reaches m c n
    enter_on n c h k = elim ((∈-add c s.stack x).0 k) [
      | inl old ↦ Reaches-snoc (on c old) h
      | inr same ↦ rw same (edge h)
    ]

    each-EachAnswers :
        (ns : List String)
        → ns ≡ neighbours m x
        → EachAnswers m t (enter s x) ns (detect_each (detect_cycle_dfs fuel m t) ns (enter s x))
    unfolding detect_each
    each-EachAnswers [] e = inl (
      refl,
      λ n h. absurd h,
      record { kept = λ v h. h; restored = refl; settled = enter-IsSettled },
    )
    each-EachAnswers (n ∷ ns) e =
        let first : n ∈ neighbours m x = subst (λ l. n ∈ l) e (inl refl) in
        let key : x ∈ keys m = neighbours-keys m x n first in
        detect_each-Answers m t fuel (detect_cycle_dfs fuel m t) d (n ∷ ns) (enter s x)
          enter-IsSettled (omega (arith, keys_left-add (keys m) s.visited x key new))
          (λ k c h. enter_on k c (subst (λ l. k ∈ l) e h))

    leave-Passed :
        (s' : Search)
        → ¬ IsTarget t x
        → ((n : String) → n ∈ neighbours m x → IsClear m t n)
        → Passed m t (enter s x) s'
        → IsClear m t x × Passed m t s (leave s' x)
    leave-Passed s' nt all p = (
      clear nt all,
      record {
        kept = λ v h. p.kept v (∈-add_old v s.visited x h);
        restored = back;
        settled = λ v h n. elim (dec_in v (add s.stack x)) [
          | no off ↦ p.settled v h (λ k. off (rw p.restored at k))
          | yes k ↦ elim ((∈-add v s.stack x).0 k) [
            | inl old ↦ absurd (n (rw back old))
            | inr same ↦ rw same (clear nt all)
          ]
        ];
      },
    )
      where
        back : (leave s' x).stack ≡ s.stack
        back = rw p.restored (delete-add s.stack x apart)

    detect_new-Answers : ¬ IsTarget t x → Answers m t s x (detect_cycle_dfs (suc fuel) m t x s)
    detect_new-Answers nt =
        let r = detect_each (detect_cycle_dfs fuel m t) (neighbours m x) (enter s x) in
        rw (detect_new fuel m t x s nt apart new) (elim (each-EachAnswers (neighbours m x) refl) [
          | inr (e, (n, h, bad)) ↦ rw e (inr (refl, Trouble-step h bad))
          | inl (e, all, p) ↦
              let (good, passed) = leave-Passed r.1 nt all p in rw e (inl (refl, good, passed))
        ])

  detect-Detects : (fuel : ℕ) → Detects m t fuel (detect_cycle_dfs fuel m t)
  detect-Detects zero x s ok lt on = absurd (omega arith)
  detect-Detects (suc fuel) x s ok lt on = elim (dec_target t x) [
    | yes hit ↦ rw (detect_target fuel m t x s hit) (inr (refl, (x, inl refl, inl hit)))
    | no nt ↦ elim (dec_in x s.stack) [
      | yes k ↦ rw (detect_stack fuel m t x s nt k) (inr (refl, (x, inl refl, inr (on x k))))
      | no apart ↦ elim (dec_in x s.visited) [
        | no new ↦ detect_new-Answers fuel (detect-Detects fuel) x s ok lt on apart new nt
        | yes old ↦
            rw (detect_visited fuel m t x s nt apart old) (
              inl (refl, ok x old apart, record { kept = λ v h. h; restored = refl; settled = ok }))
      ]
    ]
  ]

  abbrev start : Search
  start = record { visited = []; stack = [] }

  start-Answers : (x : String) → Answers m t start x (detect_cycle_dfs (fuel_for m) m t x start)
  start-Answers x =
      detect-Detects (fuel_for m) x start (λ v h. absurd h)
        (omega (arith, keys_left-le (keys m) [])) (λ c h. absurd h)

  -- The answer from an empty start, both ways.
  pub detect_cycle_dfs-Trouble :
      (x : String)
      → ((detect_cycle_dfs (fuel_for m) m t x start).0 ≡ true → Trouble m t x)
        × ((detect_cycle_dfs (fuel_for m) m t x start).0 ≡ false → IsClear m t x)
  detect_cycle_dfs-Trouble x = elim (start-Answers x) [
    | inl (e, good, p) ↦ (λ e'. cc, λ e'. good)
    | inr (e, bad) ↦ (λ e'. bad, λ e'. cc)
  ]

module _ (m : Adjacency) (k : String) (ks : List String) (s : Search) where
  abbrev answer : Bool × Search
  answer = detect_cycle_dfs (fuel_for m) m none k s

  from_old : k ∈ s.visited → has_cycle_from m (k ∷ ks) s ≡ has_cycle_from m ks s
  unfolding has_cycle_from
  from_old h = ground arith

  from_found : ¬ (k ∈ s.visited) → answer.0 ≡ true → has_cycle_from m (k ∷ ks) s ≡ true
  unfolding has_cycle_from
  from_found n e = ground arith

  from_next :
      ¬ (k ∈ s.visited)
      → answer.0 ≡ false
      → has_cycle_from m (k ∷ ks) s ≡ has_cycle_from m ks answer.1
  unfolding has_cycle_from
  from_next n e = ground arith

module _ (m : Adjacency) where
  -- The stack is empty between two keys.
  abbrev Verdict : List String → Bool → Type 0
  Verdict ks b =
      ((b ≡ false) × ((k : String) → k ∈ ks → IsClear m none k))
      ⊎ ((b ≡ true) × ((k : String) × Trouble m none k))

  Verdict-cons :
      (k : String) (ks : List String) (b : Bool)
      → IsClear m none k
      → Verdict ks b
      → Verdict (k ∷ ks) b
  Verdict-cons k ks b c (inr bad) = inr bad
  Verdict-cons k ks b c (inl (e, all)) =
      inl (e, λ j h. elim h [ inl same ↦ rw same c | inr l ↦ all j l ])

  has_cycle_from-Verdict :
      (ks : List String) (s : Search)
      → IsSettled m none s
      → s.stack ≡ []
      → Verdict ks (has_cycle_from m ks s)
  unfolding has_cycle_from
  has_cycle_from-Verdict [] s ok e = inl (refl, λ k h. absurd h)
  has_cycle_from-Verdict (k ∷ ks) s ok e = elim (dec_in k s.visited) [
    | yes old ↦ rw (from_old m k ks s old) (
        Verdict-cons k ks (has_cycle_from m ks s) (ok k old (λ h. subst (λ l. k ∈ l) e h))
          (has_cycle_from-Verdict ks s ok e))
    | no new ↦
        elim (detect-Detects m none (fuel_for m) k s ok
          (omega (arith, keys_left-le (keys m) s.visited))
          (λ c h. absurd (subst (λ l. c ∈ l) e h))) [
            | inr (found, bad) ↦ rw (from_found m k ks s new found) (inr (refl, (k, bad)))
            | inl (quiet, good, p) ↦ rw (from_next m k ks s new quiet) (
                Verdict-cons k ks _ good
                  (has_cycle_from-Verdict ks (answer m k ks s).1 p.settled (cc (p.restored, e))))
          ]
  ]

  pub Reaches-keys : {x y : String} → Reaches m x y → x ∈ keys m
  Reaches-keys (edge h) = neighbours-keys m _ _ h
  Reaches-keys (step h p) = neighbours-keys m _ _ h

  no-Trouble : IsAcyclic m → ¬ ((k : String) × Trouble m none k)
  no-Trouble a (k, (x, way, inl t)) = t
  no-Trouble a (k, (x, way, inr p)) = a x p

  -- Every cycle goes through a key, and every key is searched.
  pub has_cycle_from_iff :
      (has_cycle_from m (keys m) (record { visited = []; stack = [] }) ≡ false) ↔ IsAcyclic m
  has_cycle_from_iff = elim (has_cycle_from-Verdict (keys m) start' (λ v h. absurd h) refl) [
    | inl (e, all) ↦ (λ e' x p. not-IsClear_loop (all x (Reaches-keys p)) p, λ a. e)
    | inr (e, bad) ↦ (λ e'. cc, λ a. absurd (no-Trouble a bad))
  ]
    where
      start' : Search
      start' = record { visited = []; stack = [] }
