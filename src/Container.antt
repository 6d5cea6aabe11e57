-- ===== src/Container.antt =====
-- src/core/container.ts: the class `Container`. A value of a service is of a type of the reader's. One
-- run of a factory is a program as far as the container sees it: it gives a value, throws, is
-- asynchronous, or awaits `resolve` of a service and goes on with the result. A factory may do
-- something else each time, so it is given the number of the runs before. Calls do not overlap.
pub mod Nesting
pub mod Singletons
pub mod Shutdown
use autobeat.Prelude.{
  ℕ, zero, suc, String, Bool, true, false, Option, none, some, List, [], ◌∷◌, ite, dec_in, add,
  delete, length, if◌then◌else◌,
}
use autobeat.Prelude.Dict
use autobeat.Prelude.Dict.{Dict}
use autobeat.Result.{Result, ok, err, ErrorCode, configuration_error, system_error}

pub data Run (V : Type 0) : Type 0 where
  done : V → Run V
  throws : Run V
  waits : Run V → Run V
  resolves : String → (Result V ErrorCode → Run V) → Run V

-- What a factory does when `n` runs of factories have been started before.
abbrev pub Factory : Type 0 → Type 0
Factory V = ℕ → Run V

pub record Service (V : Type 0) : Type 0 where
  pub factory : Factory V
  pub singleton : Bool
  pub instance : Option V

pub record Container (V : Type 0) : Type 0 where
  pub services : Dict (Service V)
  pub resolving : List String
  -- How many runs of factories have been started.
  pub runs : ℕ

abbrev pub Answer : Type 0 → Type 0
Answer V = Container V × Result V ErrorCode

module _ {V : Type 0} where
  -- What the three registrations share: a name is taken once.
  unfoldable pub register :
      Container V → String → Service V → Container V × Result (Unit {0}) ErrorCode
  register c name service = elim (Dict.get c.services name) [
    | some known ↦ (c, err configuration_error)
    | none ↦ (record c { services = Dict.set c.services name service }, ok tt)
  ]

  abbrev pub register_singleton :
      Container V → String → Factory V → Container V × Result (Unit {0}) ErrorCode
  register_singleton c name f =
      register c name (record { factory = f; singleton = true; instance = none })

  abbrev pub register_transient :
      Container V → String → Factory V → Container V × Result (Unit {0}) ErrorCode
  register_transient c name f =
      register c name (record { factory = f; singleton = false; instance = none })

  abbrev pub register_value : Container V → String → V → Container V × Result (Unit {0}) ErrorCode
  register_value c name v =
      register c name (record { factory = λ n. done v; singleton = true; instance = some v })

  -- `service.singleton && service.instance !== undefined`
  abbrev pub cached : Service V → Option V
  cached s = if s.singleton then s.instance else none

  -- `if (service.singleton) service.instance = instance`, on the object that the map holds.
  unfoldable pub keep : Dict (Service V) → String → Service V → V → Dict (Service V)
  keep services name s v =
      if s.singleton then Dict.set services name (record s { instance = some v }) else services

  -- `await service.factory()`: `none` when it throws.
  unfoldable pub run :
      (Container V → String → Answer V) → Container V → Run V → Container V × Option V
  run visit c (done v) = (c, some v)
  run visit c throws = (c, none)
  run visit c (waits f) = run visit c f
  run visit c (resolves n k) = let (c', r) = visit c n in run visit c' (k r)

  abbrev pub enter : Container V → String → Container V
  enter c name = record c { resolving = add c.resolving name; runs = suc c.runs }

  -- The ends of `resolve`, after the factory.
  unfoldable pub leave : String → Service V → Container V × Option V → Answer V
  leave name s (c, some v) =
      (record c { services = keep c.services name s v; resolving = delete c.resolving name }, ok v)
  leave name s (c, none) = (record c { resolving = delete c.resolving name }, err system_error)

  unfoldable pub resolve_on : ℕ → Container V → String → Answer V
  unfolding run
  resolve_on zero c name = (c, err system_error)
  resolve_on (suc fuel) c name = elim (Dict.get c.services name) [
    | none ↦ (c, err configuration_error)
    | some s ↦
        ite (dec_in name c.resolving) (c, err configuration_error)
          (elim (cached s) [
            | some v ↦ (c, ok v)
            | none ↦ leave name s (run (resolve_on fuel) (enter c name) (s.factory c.runs))
          ])
  ]

  -- Each nested call has one more of the names in `resolving`.
  unfoldable pub resolve : Container V → String → Answer V
  resolve c name = resolve_on (suc (length (Dict.keys c.services))) c name

  unfoldable pub get : Container V → String → Answer V
  get c name = elim (Dict.get c.services name) [
    | none ↦ (c, err configuration_error)
    | some s ↦ elim (cached s) [
      | some v ↦ (c, ok v)
      | none ↦
          let c' : Container V = record c { runs = suc c.runs } in
          elim (s.factory c.runs) [
            | done v ↦ (record c' { services = keep c.services name s v }, ok v)
            | throws ↦ (c', err system_error)
            | waits f ↦ (c', err configuration_error)
            | resolves n k ↦ (c', err configuration_error)
          ]
    ]
  ]

  abbrev pub clear : Container V → Container V
  clear c = record c { services = []; resolving = [] }

  unfoldable pub fresh : Dict (Service V) → Dict (Service V)
  fresh [] = []
  fresh ((name, s) ∷ rest) = (name, record s { instance = none }) ∷ fresh rest

  unfoldable pub create_child : Container V → Container V
  create_child c = record c { services = fresh c.services; resolving = [] }
