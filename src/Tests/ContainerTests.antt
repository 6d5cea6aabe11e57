-- ===== src/Tests/ContainerTests.antt =====
-- src/core/container.ts with text as its values: b awaits a, and c awaits itself.
use autobeat.Prelude.{
  ◌+◌, String, Bool, [], ◌∷◌, true, none, ◌≡◌, refl, String-discrete, dec_in, add, delete,
}
use autobeat.Prelude.Dict
use autobeat.Prelude.Dict.{keys}
use autobeat.Result.{ok, err, configuration_error, system_error}
use autobeat.Container.{
  Run, done, throws, resolves, Service, Container, keep, run, leave, resolve_on, resolve, get,
}
use autobeat.Container.Nesting.{resolve-restores, resolve-fuel}
use autobeat.Container.Singletons.{resolve_again}
use autobeat.Container.Shutdown.{
  Method, emits, shutdown_initiated, kills_workers, workers_terminating, calls, sweeps, dispose,
  IsRising, dispose-IsRising, shutdown_complete, disposes_bus,
}

program : Unit {0}
unfolding Dict.get Dict.set Dict.delete String-discrete dec_in add delete keep run leave resolve_on
    resolve get calls sweeps dispose
program = tt

-- A singleton that has no value yet.
abbrev lazy : Run String → Service String
lazy f = record { factory = λ n. f; singleton = true; instance = none }

abbrev after_a : Run String
after_a = resolves "a" (λ r. elim r [ ok v ↦ done "b!" | err e ↦ throws ])

abbrev after_c : Run String
after_c = resolves "c" (λ r. elim r [ ok v ↦ done "c!" | err e ↦ throws ])

abbrev container : Container String
container = record {
  services = ("a", lazy (done "a!")) ∷ ("b", lazy after_a) ∷ ("c", lazy after_c) ∷ [];
  resolving = [];
  runs = 0;
}

resolve-b : (resolve container "b").1 ≡ ok "b!"
unfolding program
resolve-b = refl

resolve_runs : ((resolve container "b").0.runs ≡ 2) × ((resolve container "c").0.runs ≡ 1)
unfolding program
resolve_runs = (refl, refl)

resolve_circular : (resolve container "c").1 ≡ err system_error
unfolding program
resolve_circular = refl

get_async : (get container "b").1 ≡ err configuration_error
unfolding program
get_async = refl

resolve-restores_example :
    ((resolve container "c").0.resolving ≡ [])
    × (keys (resolve container "c").0.services ≡ "a" ∷ "b" ∷ "c" ∷ [])
resolve-restores_example = resolve-restores container "c"

resolve-fuel_example : resolve_on (4 + 7) container "b" ≡ resolve container "b"
resolve-fuel_example = resolve-fuel container "b" 7

resolve_again_example :
    (resolve (resolve container "b").0 "b" ≡ ((resolve container "b").0, ok "b!"))
    × (get (resolve container "b").0 "b" ≡ ((resolve container "b").0, ok "b!"))
unfolding program
resolve_again_example =
    resolve_again container (resolve container "b").0 "b" (lazy after_a) "b!" refl refl refl

abbrev running : Container String
running = record {
  services = ("workerPool", lazy (done "pool")) ∷ ("eventBus", lazy (done "bus")) ∷ [];
  resolving = [];
  runs = 0;
}

abbrev offers_all : String → Method → Bool
offers_all v m = true

dispose-running :
    (dispose offers_all running).1
    ≡ emits shutdown_initiated
      ∷ emits workers_terminating
      ∷ kills_workers
      ∷ emits shutdown_complete
      ∷ disposes_bus
      ∷ []
unfolding program
dispose-running = refl

dispose-IsRising_example :
    IsRising 0 (dispose offers_all running).1
    × ((dispose offers_all running).0.services ≡ [])
    × ((dispose offers_all running).0.resolving ≡ [])
dispose-IsRising_example = dispose-IsRising offers_all running
