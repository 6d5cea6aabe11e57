-- ===== src/Dependencies/Resolved.antt =====
-- `resolveDependencies` of src/services/handlers/dependency-handler.ts.
use mathlib.Core.List.{append-nil, append_assoc}
use autobeat.Prelude.{
  String, Bool, true, false, List, [], ◌∷◌, ◌++◌, not, ◌≡◌, refl, ◌⊎◌, inl, inr, ◌∈◌, arith, ite,
  dec_in, Has, Has-append_left, Has-append_right, Has-append_cases, Bool-cases, if◌then◌else◌,
  String-discrete, ◌∙◌, if_pos, if_neg, subst,
}
use autobeat.Dependencies.{
  Resolution, pending, completed, failed, cancelled, Row, Store, Database, Event,
  dependency_resolved, cancellation_requested, unblocked, Handler, get_dependencies, get_dependents,
  is_pending, is_bad, any_row, is_blocked, resolve_one, resolve_each,
}

-- The events for one row that was pending, and for a list of rows.
pub reaction : Database → Store → Resolution → Row → List Event
reaction db s new dep =
    dependency_resolved dep.task_id dep.depends_on new
    ∷ (if not (db.blocked dep.task_id)
        then []
        else if is_blocked s dep.task_id
        then []
        else if not (db.dependencies dep.task_id)
        then []
        else if any_row is_bad (get_dependencies s.rows dep.task_id)
        then cancellation_requested dep.task_id ∷ []
        else if not (db.finds dep.task_id)
        then []
        else ite (dec_in dep.task_id s.tasks) (unblocked dep.task_id ∷ []) [])

pub reactions : Database → Store → Resolution → List Row → List Event
reactions db s new [] = []
reactions db s new (d ∷ ds) =
    (if is_pending d.resolution then reaction db s new d else []) ++ reactions db s new ds

pub extend : Handler → List Event → Handler
extend h es = record h { events = h.events ++ es }

resolve_one-extend :
    (db : Database) (h : Handler) (new : Resolution) (dep : Row)
    → resolve_one db h new dep ≡ extend h (reaction db h.store new dep)
unfolding resolve_one reaction extend
resolve_one-extend db h new dep =
    let first = dependency_resolved dep.task_id dep.depends_on new in
    ground (
      arith,
      append_assoc h.events (first ∷ []) (cancellation_requested dep.task_id ∷ []),
      append_assoc h.events (first ∷ []) (unblocked dep.task_id ∷ []),
    )

extend-nil : (h : Handler) → h ≡ extend h []
unfolding extend
extend-nil h = ground (arith, append-nil h.events)

extend-extend : (h : Handler) (a b : List Event) → extend (extend h a) b ≡ extend h (a ++ b)
unfolding extend
extend-extend h a b = ground (arith, append_assoc h.events a b)

pub extend-store : (h : Handler) (a : List Event) → (extend h a).store ≡ h.store
unfolding extend
extend-store h a = refl

pub extend-events : (h : Handler) (a : List Event) → (extend h a).events ≡ h.events ++ a
unfolding extend
extend-events h a = refl

pub resolve_each-extend :
    (db : Database) (h : Handler) (new : Resolution) (deps : List Row)
    → resolve_each db h new deps ≡ extend h (reactions db h.store new deps)
unfolding resolve_each reactions
resolve_each-extend db h new [] = extend-nil h
resolve_each-extend db h new (d ∷ ds) = elim (Bool-cases (is_pending d.resolution)) [
  | inr e ↦ rw e (resolve_each-extend db h new ds)
  | inl e ↦ rw e (
      resolve_each-extend db (resolve_one db h new d) new ds
      ∙ cc (
        resolve_one-extend db h new d,
        extend-store h (reaction db h.store new d),
        extend-extend h (reaction db h.store new d) (reactions db h.store new ds),
      ))
]

-- The rows of a task, as the statement selects them.
pub get_dependencies-Has :
    (rows : List Row) (x : String) (r : Row)
    → Has r rows
    → r.task_id ≡ x
    → Has r (get_dependencies rows x)
unfolding get_dependencies
get_dependencies-Has [] x r h e = absurd h
get_dependencies-Has (q ∷ rows) x r (inl same) e =
    rw same (let e' : q.task_id ≡ x = cc in rw (if_pos _ e') (inl refl))
get_dependencies-Has (q ∷ rows) x r (inr h) e = elim (String-discrete q.task_id x) [
  | yes y ↦ rw (if_pos _ y) (inr (get_dependencies-Has rows x r h e))
  | no n ↦ rw (if_neg _ n) (get_dependencies-Has rows x r h e)
]

pub get_dependents-Has :
    (rows : List Row) (x : String) (r : Row)
    → Has r rows
    → r.depends_on ≡ x
    → Has r (get_dependents rows x)
unfolding get_dependents
get_dependents-Has [] x r h e = absurd h
get_dependents-Has (q ∷ rows) x r (inl same) e =
    rw same (let e' : q.depends_on ≡ x = cc in rw (if_pos _ e') (inl refl))
get_dependents-Has (q ∷ rows) x r (inr h) e = elim (String-discrete q.depends_on x) [
  | yes y ↦ rw (if_pos _ y) (inr (get_dependents-Has rows x r h e))
  | no n ↦ rw (if_neg _ n) (get_dependents-Has rows x r h e)
]

pub any_row-false :
    (p : Resolution → Bool) (rows : List Row) (r : Row)
    → any_row p rows ≡ false
    → Has r rows
    → p r.resolution ≡ false
unfolding any_row
any_row-false p [] r e h = absurd h
any_row-false p (q ∷ rows) r e (inl same) = rw same (ground arith)
any_row-false p (q ∷ rows) r e (inr h) = any_row-false p rows r (ground arith) h

pub neither : (x : Resolution) → is_pending x ≡ false → is_bad x ≡ false → x ≡ completed
neither pending e e' = cc
neither completed e e' = refl
neither failed e e' = cc
neither cancelled e e' = cc

-- Every dependency of the task has completed, and the task is there.
abbrev pub IsReady : Store → String → Type 0
IsReady s x = (x ∈ s.tasks) × ((r : Row) → Has r s.rows → r.task_id ≡ x → r.resolution ≡ completed)

reaction-IsReady :
    (db : Database) (s : Store) (new : Resolution) (dep : Row) (x : String)
    → Has (unblocked x) (reaction db s new dep)
    → IsReady s x
unfolding reaction is_blocked
reaction-IsReady db s new dep x h =
    let (e, free, fine, there) = facts h in
    rw e (
      there,
      λ r in_rows own.
          let mine = get_dependencies-Has s.rows dep.task_id r in_rows own in
          neither r.resolution (any_row-false is_pending _ r free mine)
            (any_row-false is_bad _ r fine mine),
    )
  where
    facts :
        Has (unblocked x) (reaction db s new dep)
        → (x ≡ dep.task_id)
          × (any_row is_pending (get_dependencies s.rows dep.task_id) ≡ false)
          × (any_row is_bad (get_dependencies s.rows dep.task_id) ≡ false)
          × (dep.task_id ∈ s.tasks)
    facts h = ground arith

pub reactions-IsReady :
    (db : Database) (s : Store) (new : Resolution) (deps : List Row) (x : String)
    → Has (unblocked x) (reactions db s new deps)
    → IsReady s x
unfolding reactions
reactions-IsReady db s new [] x h = absurd h
reactions-IsReady db s new (d ∷ ds) x h =
    elim (Has-append_cases (unblocked x) _ (reactions db s new ds) h) [
      | inr later ↦ reactions-IsReady db s new ds x later
      | inl now ↦ elim (Bool-cases (is_pending d.resolution)) [
        | inl e ↦ reaction-IsReady db s new d x (rw e at now)
        | inr e ↦ absurd (rw e at now)
      ]
    ]

any_row-true :
    (p : Resolution → Bool) (rows : List Row) (r : Row)
    → Has r rows
    → p r.resolution ≡ true
    → any_row p rows ≡ true
unfolding any_row
any_row-true p [] r h e = absurd h
any_row-true p (q ∷ rows) r (inl same) e = ground arith
any_row-true p (q ∷ rows) r (inr h) e = ground (arith, any_row-true p rows r h e)

any_row-Has :
    (p : Resolution → Bool) (rows : List Row)
    → any_row p rows ≡ true
    → (r : Row) × Has r rows × (p r.resolution ≡ true)
unfolding any_row
any_row-Has p [] e = absurd cc
any_row-Has p (q ∷ rows) e = elim (Bool-cases (p q.resolution)) [
  | inl bad ↦ (q, inl refl, bad)
  | inr fine ↦ let (r, h, bad) = any_row-Has p rows (ground arith) in (r, inr h, bad)
]

Has-get_dependencies :
    (rows : List Row) (x : String) (r : Row)
    → Has r (get_dependencies rows x)
    → Has r rows × (r.task_id ≡ x)
unfolding get_dependencies
Has-get_dependencies [] x r h = absurd h
Has-get_dependencies (q ∷ rows) x r h = elim (String-discrete q.task_id x) [
  | no n ↦ let (k, e) = Has-get_dependencies rows x r (rw (if_neg _ n) at h) in (inr k, e)
  | yes y ↦ elim (rw (if_pos _ y) at h) [
    | inl same ↦ (inl same, rw same y)
    | inr h' ↦ let (k, e) = Has-get_dependencies rows x r h' in (inr k, e)
  ]
]

-- The database answers what is asked about the task.
abbrev pub Answers : Database → String → Type 0
Answers db x = (db.blocked x ≡ true) × (db.dependencies x ≡ true) × (db.finds x ≡ true)

-- Some dependency of the task has failed or was cancelled.
abbrev pub HasBad : Store → String → Type 0
HasBad s x = (r : Row) × Has r s.rows × (r.task_id ≡ x) × (is_bad r.resolution ≡ true)

unblocked-reaction :
    (db : Database) (s : Store) (new : Resolution) (dep : Row)
    → Answers db dep.task_id
    → is_blocked s dep.task_id ≡ false
    → dep.task_id ∈ s.tasks
    → any_row is_bad (get_dependencies s.rows dep.task_id) ≡ false
    → Has (unblocked dep.task_id) (reaction db s new dep)
unfolding reaction
unblocked-reaction db s new dep answers e h fine = ground arith

cancelled-reaction :
    (db : Database) (s : Store) (new : Resolution) (dep : Row)
    → db.blocked dep.task_id ≡ true
    → db.dependencies dep.task_id ≡ true
    → is_blocked s dep.task_id ≡ false
    → any_row is_bad (get_dependencies s.rows dep.task_id) ≡ true
    → Has (cancellation_requested dep.task_id) (reaction db s new dep)
unfolding reaction
cancelled-reaction db s new dep told told' e bad = ground arith

-- A pending dependent that is no longer blocked: what follows its resolution.
pub reaction-free :
    (db : Database) (s : Store) (new : Resolution) (dep : Row)
    → Answers db dep.task_id
    → is_blocked s dep.task_id ≡ false
    → dep.task_id ∈ s.tasks
    → (IsReady s dep.task_id × Has (unblocked dep.task_id) (reaction db s new dep))
      ⊎ (HasBad s dep.task_id × Has (cancellation_requested dep.task_id) (reaction db s new dep))
reaction-free db s new dep answers e h =
    elim (Bool-cases (any_row is_bad (get_dependencies s.rows dep.task_id))) [
      | inr fine ↦
          let k = unblocked-reaction db s new dep answers e h fine in
          inl (reaction-IsReady db s new dep dep.task_id k, k)
      | inl bad ↦
          let (r, k, is) = any_row-Has is_bad (get_dependencies s.rows dep.task_id) bad in
          let (k', own) = Has-get_dependencies s.rows dep.task_id r k in
          inr ((r, k', own, is), cancelled-reaction db s new dep answers.0 answers.1 e bad)
    ]

pub reaction_bad :
    (db : Database) (s : Store) (new : Resolution) (dep r : Row)
    → db.blocked dep.task_id ≡ true
    → db.dependencies dep.task_id ≡ true
    → is_blocked s dep.task_id ≡ false
    → Has r s.rows
    → r.task_id ≡ dep.task_id
    → is_bad r.resolution ≡ true
    → Has (cancellation_requested dep.task_id) (reaction db s new dep)
reaction_bad db s new dep r told told' e h own bad = cancelled-reaction db s new dep told told' e (
    any_row-true is_bad (get_dependencies s.rows dep.task_id) r
      (get_dependencies-Has s.rows dep.task_id r h own) bad)

pub reactions-Has :
    (db : Database) (s : Store) (new : Resolution) (deps : List Row) (dep : Row) (e : Event)
    → Has dep deps
    → dep.resolution ≡ pending
    → Has e (reaction db s new dep)
    → Has e (reactions db s new deps)
unfolding reactions
reactions-Has db s new [] dep e h p k = absurd h
reactions-Has db s new (d ∷ ds) dep e (inl same) p k =
    let now : is_pending d.resolution ≡ true = rw (← same) (rw p refl) in
    rw now (
      Has-append_left e _ (reactions db s new ds) (subst (λ q. Has e (reaction db s new q)) same k))
reactions-Has db s new (d ∷ ds) dep e (inr h) p k =
    Has-append_right e _ (reactions db s new ds) (reactions-Has db s new ds dep e h p k)
