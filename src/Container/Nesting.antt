-- ===== src/Container/Nesting.antt =====
-- `Container.resolve`: nested calls, and the services that are created once.
use autobeat.Prelude.{
  ℕ, zero, suc, ◌+◌, ◌<◌, String, Option, none, some, List, [], ◌∷◌, dec_in, add, delete, length,
  keys_left, keys_left-add, keys_left-le, ◌≡◌, refl, inl, inr, arith, ap, ◌∙◌, delete-add,
  Option-cases, ◌∈◌,
}
use autobeat.Prelude.Dict
use autobeat.Prelude.Dict.{Dict, keys, get-set, keys-get}
use autobeat.Result.{ok, err, configuration_error}
use autobeat.Container.{
  Run, done, throws, waits, resolves, Service, Container, Answer, cached, keep, run, enter, leave,
  resolve_on, resolve,
}

keys-set_known :
    {W : Type 0} (m : Dict W) (k : String) (w : W) → k ∈ keys m → keys (Dict.set m k w) ≡ keys m
unfolding Dict.set
keys-set_known [] k w h = absurd h
keys-set_known ((j, u) ∷ m) k w h = ground (arith, keys-set_known m k w)

module _ {V : Type 0} where
  keys-keep :
      (services : Dict (Service V)) (name : String) (s : Service V) (v : V)
      → name ∈ keys services
      → keys (keep services name s v) ≡ keys services
  unfolding keep
  keys-keep services name s v h =
      ground (arith, keys-set_known services name (record s { instance = some v }) h)

  -- The names of the services and the calls that are under way.
  abbrev Same : Container V → Container V → Type 0
  Same c d = (c.resolving ≡ d.resolving) × (keys c.services ≡ keys d.services)

  abbrev Restores : (Container V → String → Answer V) → Type 0
  Restores visit = (c : Container V) (name : String) → Same (visit c name).0 c

  run-Same :
      (visit : Container V → String → Answer V)
      → Restores visit
      → (c : Container V) (f : Run V) → Same (run visit c f).0 c
  unfolding run
  run-Same visit same c (done v) = (refl, refl)
  run-Same visit same c throws = (refl, refl)
  run-Same visit same c (waits f) = run-Same visit same c f
  run-Same visit same c (resolves n k) =
      let here = same c n in
      let rest = run-Same visit same (visit c n).0 (k (visit c n).1) in
      (rest.0 ∙ here.0, rest.1 ∙ here.1)

  leave-resolving :
      (name : String) (s : Service V) (r : Container V × Option V)
      → (leave name s r).0.resolving ≡ delete r.0.resolving name
  unfolding leave
  leave-resolving name s (c, some v) = refl
  leave-resolving name s (c, none) = refl

  leave-keys :
      (name : String) (s : Service V) (r : Container V × Option V)
      → name ∈ keys r.0.services
      → keys (leave name s r).0.services ≡ keys r.0.services
  unfolding leave
  leave-keys name s (c, some v) h = keys-keep c.services name s v h
  leave-keys name s (c, none) h = refl

  module _ (fuel : ℕ) (c : Container V) (name : String) where
    -- The branches of `resolve`.
    pub data Ends : Type 0 where
      refused : resolve_on (suc fuel) c name ≡ (c, err configuration_error) → Ends
      known :
          (s : Service V) (v : V)
          → Dict.get c.services name ≡ some s
          → ¬ (name ∈ c.resolving)
          → cached s ≡ some v
          → resolve_on (suc fuel) c name ≡ (c, ok v)
          → Ends
      created :
          (s : Service V)
          → Dict.get c.services name ≡ some s
          → ¬ (name ∈ c.resolving)
          → resolve_on (suc fuel) c name
            ≡ leave name s (run (resolve_on fuel) (enter c name) (s.factory c.runs))
          → Ends

    pub resolve_on-Ends : Ends
    unfolding resolve_on
    resolve_on-Ends = elim (Option-cases (Dict.get c.services name)) [
      | inl e ↦ refused (ground arith)
      | inr (s, e) ↦ elim (dec_in name c.resolving) [
        | yes h ↦ refused (ground arith)
        | no h ↦ elim (Option-cases (cached s)) [
          | inl e' ↦ created s e h (ground arith)
          | inr (v, e') ↦ known s v e h e' (ground arith)
        ]
      ]
    ]

  resolve_on-Restores : (fuel : ℕ) → Restores (resolve_on fuel)
  unfolding resolve_on
  resolve_on-Restores zero c name = (refl, refl)
  resolve_on-Restores (suc fuel) c name = elim (resolve_on-Ends fuel c name) [
    | refused e ↦ rw e (refl, refl)
    | known s v e h _ r ↦ rw r (refl, refl)
    | created s e h r ↦
        let inside =
          run-Same (resolve_on fuel) (resolve_on-Restores fuel) (enter c name) (s.factory c.runs) in
        rw r (
          leave-resolving name s (run (resolve_on fuel) (enter c name) (s.factory c.runs))
              ∙ ap (λ names. delete names name) inside.0
              ∙ delete-add c.resolving name h,
          leave-keys name s (run (resolve_on fuel) (enter c name) (s.factory c.runs))
                (rw inside.1 (keys-get c.services name s e))
              ∙ inside.1,
        )
  ]

  -- Fuel beyond the names that are not under way changes nothing.
  abbrev Agrees :
      (Container V → String → Answer V)
      → (Container V → String → Answer V)
      → List String
      → List String
      → Type 0
  Agrees visit visit' resolving names =
      (c : Container V) (name : String)
      → c.resolving ≡ resolving
      → keys c.services ≡ names
      → visit c name ≡ visit' c name

  run-Agrees :
      (visit visit' : Container V → String → Answer V)
      → Restores visit
      → (c : Container V) → Agrees visit visit' c.resolving (keys c.services)
      → (f : Run V) → run visit c f ≡ run visit' c f
  unfolding run
  run-Agrees visit visit' same c agree (done v) = refl
  run-Agrees visit visit' same c agree throws = refl
  run-Agrees visit visit' same c agree (waits f) = run-Agrees visit visit' same c agree f
  run-Agrees visit visit' same c agree (resolves n k) =
      let here = same c n in
      run-Agrees visit visit' same (visit c n).0
        (λ d name e e'. agree d name (e ∙ here.0) (e' ∙ here.1)) (k (visit c n).1)
      ∙ ap (λ r. run visit' r.0 (k r.1)) (agree c n refl refl)

  step-Agrees :
      (fuel fuel' : ℕ) (c : Container V) (name : String)
      → ((s : Service V)
          → Dict.get c.services name ≡ some s
          → ¬ (name ∈ c.resolving)
          → run (resolve_on fuel) (enter c name) (s.factory c.runs)
            ≡ run (resolve_on fuel') (enter c name) (s.factory c.runs))
      → resolve_on (suc fuel) c name ≡ resolve_on (suc fuel') c name
  unfolding resolve_on
  step-Agrees fuel fuel' c name same = elim (Option-cases (Dict.get c.services name)) [
    | inl e ↦ ground arith
    | inr (s, e) ↦ elim (dec_in name c.resolving) [
      | yes h ↦ ground arith
      | no h ↦ elim (Option-cases (cached s)) [
        | inl e' ↦ ground (arith, same s e h)
        | inr (v, e') ↦ ground arith
      ]
    ]
  ]

  nested_le :
      (fuel : ℕ) (c : Container V) (name : String)
      → name ∈ keys c.services
      → ¬ (name ∈ c.resolving)
      → keys_left (keys c.services) c.resolving < suc fuel
      → keys_left (keys c.services) (add c.resolving name) < fuel
  nested_le fuel c name k h room =
      omega (arith, keys_left-add (keys c.services) c.resolving name k h)

  resolve_on-Agrees :
      (fuel fuel' : ℕ) (c : Container V) (name : String)
      → keys_left (keys c.services) c.resolving < fuel
      → keys_left (keys c.services) c.resolving < fuel'
      → resolve_on fuel c name ≡ resolve_on fuel' c name
  resolve_on-Agrees zero fuel' c name h h' = absurd (omega arith)
  resolve_on-Agrees (suc fuel) zero c name h h' = absurd (omega arith)
  resolve_on-Agrees (suc fuel) (suc fuel') c name h h' = step-Agrees fuel fuel' c name (λ s e out.
      let k = keys-get c.services name s e in
      run-Agrees (resolve_on fuel) (resolve_on fuel') (resolve_on-Restores fuel) (enter c name)
        (λ d n r ks.
          resolve_on-Agrees fuel fuel' d n (rw (r, ks) (nested_le fuel c name k out h))
            (rw (r, ks) (nested_le fuel' c name k out h')))
        (s.factory c.runs))

  -- A resolution leaves no mark behind: the set of names under way and the registered names are what they
  -- were before it, whether it gives a value or fails.
  pub resolve-restores :
      (c : Container V) (name : String)
      → ((resolve c name).0.resolving ≡ c.resolving)
        × (keys (resolve c name).0.services ≡ keys c.services)
  unfolding resolve
  resolve-restores c name = resolve_on-Restores (suc (length (keys c.services))) c name

  -- The fuel of `resolve` is enough: with any more, the answer is the same.
  pub resolve-fuel :
      (c : Container V) (name : String) (more : ℕ)
      → resolve_on (suc (length (keys c.services)) + more) c name ≡ resolve c name
  unfolding resolve
  resolve-fuel c name more =
      resolve_on-Agrees (suc (length (keys c.services)) + more) (suc (length (keys c.services))) c
        name (omega (arith, keys_left-le (keys c.services) c.resolving))
        (omega (arith, keys_left-le (keys c.services) c.resolving))
