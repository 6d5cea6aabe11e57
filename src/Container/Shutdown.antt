-- ===== src/Container/Shutdown.antt =====
-- `Container.dispose`: what it does to the services, in order. Which methods a service offers is given
-- from outside, and a method that is called returns.
use autobeat.Prelude.{
  ℕ, ◌<◌, ◌≤◌, Bool, true, false, List, [], ◌∷◌, ◌++◌, if◌then◌else◌, ◌≡◌, refl, arith,
}
use autobeat.Result.{Result, ok, err, ErrorCode}
use autobeat.Container.{Container, get, clear}

pub data Method : Type 0 where
  emit stop_monitoring stop kill_all close dispose_bus : Method

pub data Notice : Type 0 where
  shutdown_initiated workers_terminating database_closing shutdown_complete : Notice

pub data Action : Type 0 where
  emits : Notice → Action
  stops_monitor stops_schedules stops_proxy kills_workers sweeps_sessions : Action
  closes_database disposes_bus : Action

module _ {V : Type 0} (offers : V → Method → Bool) where
  -- `if (result.ok) { const service = result.value; if (service.method) … }`
  unfoldable pub calls : Result V ErrorCode → Method → List Action → List Action
  calls (ok v) m actions = if offers v m then actions else []
  calls (err e) m actions = []

  -- `sweepTmuxSessions` is called whatever the value offers.
  unfoldable pub sweeps : Result V ErrorCode → List Action
  sweeps (ok v) = sweeps_sessions ∷ []
  sweeps (err e) = []

  unfoldable pub dispose : Container V → Container V × List Action
  dispose c0 =
      let (c1, bus) = get c0 "eventBus" in
      let (c2, monitor) = get c1 "resourceMonitor" in
      let (c3, schedules) = get c2 "scheduleExecutor" in
      let (c4, proxy) = get c3 "proxyManager" in
      let (c5, pool) = get c4 "workerPool" in
      let (c6, sessions) = get c5 "tmuxSessionManager" in
      let (c7, database) = get c6 "database" in
      (
        clear c7,
        calls bus emit (emits shutdown_initiated ∷ [])
            ++ (calls monitor stop_monitoring (stops_monitor ∷ [])
                ++ (calls schedules stop (stops_schedules ∷ [])
                    ++ (calls proxy stop (stops_proxy ∷ [])
                        ++ (calls pool kill_all (
                              calls bus emit (emits workers_terminating ∷ []) ++ kills_workers ∷ [])
                            ++ (sweeps sessions
                                ++ (calls database close (
                                      calls bus emit (emits database_closing ∷ [])
                                      ++ closes_database ∷ [])
                                    ++ (calls bus emit (emits shutdown_complete ∷ [])
                                        ++ calls bus dispose_bus (disposes_bus ∷ [])))))))),
      )

-- The place of an action in the order that a shutdown has to keep.
abbrev pub rank : Action → ℕ
rank (emits shutdown_initiated) = 1
rank stops_monitor = 2
rank stops_schedules = 3
rank stops_proxy = 4
rank (emits workers_terminating) = 5
rank kills_workers = 6
rank sweeps_sessions = 7
rank (emits database_closing) = 8
rank closes_database = 9
rank (emits shutdown_complete) = 10
rank disposes_bus = 11

abbrev pub IsRising : ℕ → List Action → Type 0
IsRising low [] = Unit
IsRising low (a ∷ acts) = (low < rank a) × IsRising (rank a) acts

IsRising-mono :
    (low high : ℕ) (acts : List Action) → low ≤ high → IsRising high acts → IsRising low acts
IsRising-mono low high [] h r = tt
IsRising-mono low high (a ∷ acts) h r = (omega (arith, r.0), r.1)

-- What comes before actions of a rank above `high`, in a trace of ranks above `low`.
abbrev IsStage : ℕ → ℕ → List Action → Type 0
IsStage low high acts = (rest : List Action) → IsRising high rest → IsRising low (acts ++ rest)

single-IsStage : (low : ℕ) (a : Action) → low < rank a → IsStage low (rank a) (a ∷ [])
single-IsStage low a h rest r = (h, r)

none-IsStage : (low high : ℕ) → low ≤ high → IsStage low high []
none-IsStage low high h rest r = IsRising-mono low high rest h r

++-assoc : (acts bs cs : List Action) → (acts ++ bs) ++ cs ≡ acts ++ (bs ++ cs)
++-assoc [] bs cs = refl
++-assoc (a ∷ acts) bs cs = rw (++-assoc acts bs cs) refl

both-IsStage :
    (low middle high : ℕ) (acts bs : List Action)
    → IsStage low middle acts
    → IsStage middle high bs
    → IsStage low high (acts ++ bs)
both-IsStage low middle high acts bs f g rest r =
    rw (++-assoc acts bs rest) (f (bs ++ rest) (g rest r))

module _ {V : Type 0} (offers : V → Method → Bool) where
  calls-IsStage :
      (low high : ℕ) (r : Result V ErrorCode) (m : Method) (acts : List Action)
      → low ≤ high
      → IsStage low high acts
      → IsStage low high (calls offers r m acts)
  unfolding calls
  calls-IsStage low high (ok v) m acts h s =
      elim (offers v m) as (λ b. IsStage low high (if b then acts else [])) [
        | true ↦ s
        | false ↦ none-IsStage low high h
      ]
  calls-IsStage low high (err e) m acts h s = none-IsStage low high h

  call-IsStage :
      (low : ℕ) (r : Result V ErrorCode) (m : Method) (a : Action)
      → low < rank a
      → IsStage low (rank a) (calls offers r m (a ∷ []))
  call-IsStage low r m a h =
      calls-IsStage low (rank a) r m (a ∷ []) (omega (arith, h)) (single-IsStage low a h)

  last_call-IsRising :
      (low : ℕ) (r : Result V ErrorCode) (m : Method) (a : Action)
      → low < rank a
      → IsRising low (calls offers r m (a ∷ []))
  unfolding calls
  last_call-IsRising low (ok v) m a h =
      elim (offers v m) as (λ b. IsRising low (if b then a ∷ [] else [])) [
        | true ↦ (h, tt)
        | false ↦ tt
      ]
  last_call-IsRising low (err e) m a h = tt

  sweeps-IsStage : (r : Result V ErrorCode) → IsStage 6 7 (sweeps offers r)
  unfolding sweeps
  sweeps-IsStage (ok v) = single-IsStage 6 sweeps_sessions (omega arith)
  sweeps-IsStage (err e) = none-IsStage 6 7 (omega arith)

  -- A shutdown keeps its order whatever is registered and offered, and does nothing twice: the event,
  -- the monitor, the schedules, the proxy, the workers, the sessions left over, the database, the last
  -- event, the bus. It leaves no service registered.
  pub dispose-IsRising :
      (c : Container V)
      → IsRising 0 (dispose offers c).1
        × ((dispose offers c).0.services ≡ [])
        × ((dispose offers c).0.resolving ≡ [])
  unfolding dispose
  dispose-IsRising c0 =
      let bus = (get c0 "eventBus").1 in
      let c1 = (get c0 "eventBus").0 in
      let c2 = (get c1 "resourceMonitor").0 in
      let c3 = (get c2 "scheduleExecutor").0 in
      let c4 = (get c3 "proxyManager").0 in
      let c5 = (get c4 "workerPool").0 in
      let c6 = (get c5 "tmuxSessionManager").0 in
      (
        call-IsStage 0 bus emit (emits shutdown_initiated) (omega arith) _ (
            call-IsStage 1 (get c1 "resourceMonitor").1 stop_monitoring stops_monitor (omega arith)
              _
              (call-IsStage 2 (get c2 "scheduleExecutor").1 stop stops_schedules (omega arith) _ (
                call-IsStage 3 (get c3 "proxyManager").1 stop stops_proxy (omega arith) _ (
                  calls-IsStage 4 6 (get c4 "workerPool").1 kill_all _ (omega arith)
                    (both-IsStage 4 5 6 _ _
                      (call-IsStage 4 bus emit (emits workers_terminating) (omega arith))
                      (single-IsStage 5 kills_workers (omega arith)))
                    _
                    (sweeps-IsStage (get c5 "tmuxSessionManager").1 _ (
                      calls-IsStage 7 9 (get c6 "database").1 close _ (omega arith)
                        (both-IsStage 7 8 9 _ _
                          (call-IsStage 7 bus emit (emits database_closing) (omega arith))
                          (single-IsStage 8 closes_database (omega arith)))
                        _
                        (call-IsStage 9 bus emit (emits shutdown_complete) (omega arith) _
                          (last_call-IsRising 10 bus dispose_bus disposes_bus (omega arith))))))))),
        refl,
        refl,
      )
