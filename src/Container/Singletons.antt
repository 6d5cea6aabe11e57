-- ===== src/Container/Singletons.antt =====
-- `Container.resolve` and `Container.get`: services that are created once.
use autobeat.Prelude.{
  ℕ, suc, String, true, Option, none, some, length, ◌≡◌, arith, ap, sym, ◌∙◌, subst, ◌∈◌, ∈-delete,
}
use autobeat.Prelude.Dict
use autobeat.Prelude.Dict.{Dict, keys, get-set, keys-get}
use autobeat.Result.{ok}
use autobeat.Container.{
  Service, Container, cached, keep, run, enter, leave, resolve_on, resolve, get,
}
use autobeat.Container.Nesting.{refused, known, created, resolve_on-Ends}

module _ {V : Type 0} where
  -- The singleton has its value, and its name is not under way.
  abbrev Stored : Container V → String → V → Type 0
  Stored c name v =
      (s : Service V) × (Dict.get c.services name ≡ some s)
      × (cached s ≡ some v)
      × (¬ (name ∈ c.resolving))

  leave-some-Stored :
      (c : Container V) (name : String) (s : Service V) (v : V)
      → s.singleton ≡ true
      → Stored (leave name s (c, some v)).0 name v
  unfolding leave keep
  leave-some-Stored c name s v single = (
    record s { instance = some v },
    ground (arith, get-set c.services name (record s { instance = some v }) name),
    ground arith,
    ground (arith, ∈-delete name c.resolving name),
  )

  leave-Stored :
      (c c' : Container V) (name : String) (s : Service V) (r : Option V) (v : V)
      → s.singleton ≡ true
      → leave name s (c, r) ≡ (c', ok v)
      → Stored c' name v
  unfolding leave
  leave-Stored c c' name s none v single e = absurd cc
  leave-Stored c c' name s (some w) v single e =
      let at_w : Stored (leave name s (c, some w)).0 name w = leave-some-Stored c name s w single in
      let same : w ≡ v = cc in
      subst (λ d. Stored d name v) (ap (λ r. r.0) e)
        (subst (λ u. Stored (leave name s (c, some w)).0 name u) same at_w)

  resolve_on-Stored :
      (fuel : ℕ) (c c' : Container V) (name : String) (s : Service V) (v : V)
      → Dict.get c.services name ≡ some s
      → s.singleton ≡ true
      → resolve_on (suc fuel) c name ≡ (c', ok v)
      → Stored c' name v
  resolve_on-Stored fuel c c' name s v there single ended = elim (resolve_on-Ends fuel c name) [
    | refused e ↦ absurd cc
    | known s' v' e h stored r ↦
        let same : c ≡ c' = cc in
        let value : v' ≡ v = cc in subst (λ d. Stored d name v) same (s', e, rw (← value) stored, h)
    | created s' e h r ↦
        let now = run (resolve_on fuel) (enter c name) (s'.factory c.runs) in
        let single' : s'.singleton ≡ true = ground arith in
        leave-Stored now.0 c' name s' now.1 v single' (sym r ∙ ended)
  ]

  Stored-answers :
      (c : Container V) (name : String) (v : V)
      → Stored c name v
      → (resolve c name ≡ (c, ok v)) × (get c name ≡ (c, ok v))
  unfolding resolve resolve_on get
  Stored-answers c name v (s, e, stored, h) = (ground arith, ground arith)

  -- Once the resolution of a singleton has given a value, a further one and a synchronous read give
  -- the same value and leave the container as it is: no factory is run again.
  pub resolve_again :
      (c c' : Container V) (name : String) (s : Service V) (v : V)
      → Dict.get c.services name ≡ some s
      → s.singleton ≡ true
      → resolve c name ≡ (c', ok v)
      → (resolve c' name ≡ (c', ok v)) × (get c' name ≡ (c', ok v))
  unfolding resolve
  resolve_again c c' name s v there single ended =
      Stored-answers c' name v
        (resolve_on-Stored (length (keys c.services)) c c' name s v there single ended)
