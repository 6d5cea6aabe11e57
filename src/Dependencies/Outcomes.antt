-- ===== src/Dependencies/Outcomes.antt =====
-- What becomes of the dependents when a task ends.
use autobeat.Prelude.{
  String, true, false, List, [], ◌∷◌, ◌++◌, ◌≡◌, refl, ◌⊎◌, inl, inr, ◌∈◌, arith, Has,
  Has-append_right, Has-append_cases, List-cases, Bool-cases, ap, sym, ◌∙◌,
}
use autobeat.Dependencies.{
  Resolution, pending, Row, Store, Database, Event, cancellation_requested, unblocked, Handler,
  settle, get_dependents, resolve_dependencies_batch, is_bad, is_blocked, resolve_each,
  resolve_dependencies,
}
use autobeat.Dependencies.Resolved.{
  reaction, reactions, reaction-free, reaction_bad, reactions-Has, extend-store, extend-events,
  resolve_each-extend, get_dependents-Has, IsReady, reactions-IsReady, Answers, HasBad,
}

-- The store after the batch update.
abbrev pub settled : Store → String → Resolution → Store
settled s t new = record s { rows = resolve_dependencies_batch s.rows t new }

abbrev Appends : Database → Handler → String → Resolution → Handler → Type 0
Appends db h t new after =
    (after.store ≡ settled h.store t new)
    × (after.events
        ≡ h.events ++ reactions db (settled h.store t new) new (get_dependents h.store.rows t))

resolved :
    (db : Database) (h : Handler) (t : String) (new : Resolution) (r : Row) (rs : List Row)
    → db.dependents ≡ true
    → db.updates ≡ true
    → get_dependents h.store.rows t ≡ r ∷ rs
    → (resolve_dependencies db h t new).0
      ≡ resolve_each db (record h { store = settled h.store t new }) new (r ∷ rs)
unfolding resolve_dependencies
resolved db h t new r rs reads writes e = ground arith

resolved_none :
    (db : Database) (h : Handler) (t : String) (new : Resolution)
    → get_dependents h.store.rows t ≡ []
    → (resolve_dependencies db h t new).0 ≡ h
unfolding resolve_dependencies
resolved_none db h t new e = ground arith

resolve-Appends :
    (db : Database) (h : Handler) (t : String) (new : Resolution)
    → db.dependents ≡ true
    → db.updates ≡ true
    → ((get_dependents h.store.rows t ≡ []) × ((resolve_dependencies db h t new).0 ≡ h))
      ⊎ Appends db h t new (resolve_dependencies db h t new).0
resolve-Appends db h t new reads writes = elim (List-cases (get_dependents h.store.rows t)) [
  | inl e ↦ inl (e, resolved_none db h t new e)
  | inr (r, rs, e) ↦
      let h' : Handler = record h { store = settled h.store t new } in
      let es = reactions db (settled h.store t new) new (r ∷ rs) in
      let all = resolved db h t new r rs reads writes e ∙ resolve_each-extend db h' new (r ∷ rs) in
      inr (
        ap (λ z. z.store) all ∙ extend-store h' es,
        ap (λ z. z.events) all
            ∙ extend-events h' es
            ∙ ap (λ deps. h.events ++ reactions db (settled h.store t new) new deps) (sym e),
      )
]

-- Whatever fails, a task's end changes nothing, or the store and the events as if nothing had failed
-- before the loop.
resolve_cases :
    (db : Database) (h : Handler) (t : String) (new : Resolution)
    → ((resolve_dependencies db h t new).0 ≡ h)
      ⊎ Appends db h t new (resolve_dependencies db h t new).0
unfolding resolve_dependencies
resolve_cases db h t new = elim (Bool-cases db.dependents) [
  | inr e ↦ inl (ground arith)
  | inl e ↦ elim (Bool-cases db.updates) [
    | inr e' ↦ inl (ground arith)
    | inl e' ↦ elim (resolve-Appends db h t new e e') [
      | inl (_, same) ↦ inl same
      | inr appends ↦ inr appends
    ]
  ]
]

-- A task that was not reported as unblocked before is so by the end of another task only when it is
-- known and all of its dependencies have completed, by what is stored afterwards, whichever statements
-- of the database fail meanwhile.
pub resolve_unblocked-IsReady :
    (db : Database) (h : Handler) (t : String) (new : Resolution) (x : String)
    → ¬ Has (unblocked x) h.events
    → Has (unblocked x) (resolve_dependencies db h t new).0.events
    → IsReady (resolve_dependencies db h t new).0.store x
resolve_unblocked-IsReady db h t new x before after = elim (resolve_cases db h t new) [
  | inl same ↦ absurd (before (rw same at after))
  | inr (store, events) ↦
      let es = reactions db (settled h.store t new) new (get_dependents h.store.rows t) in
      elim (Has-append_cases (unblocked x) h.events es (rw events at after)) [
        | inl old ↦ absurd (before old)
        | inr now ↦ rw store (reactions-IsReady db (settled h.store t new) new _ x now)
      ]
]

module _ (db : Database) (h : Handler) (t : String) (new : Resolution)
    (reads : db.dependents ≡ true) (writes : db.updates ≡ true) (r : Row)
    (stored : Has r h.store.rows) (on : r.depends_on ≡ t) (waiting : r.resolution ≡ pending) where
  emitted :
      (e : Event)
      → Has e (reaction db (settled h.store t new) new r)
      → Has e (resolve_dependencies db h t new).0.events
  emitted e k = elim (resolve-Appends db h t new reads writes) [
    | inl (none_there, _) ↦
        absurd (rw none_there at (get_dependents-Has h.store.rows t r stored on))
    | inr (_, events) ↦ rw events (
        Has-append_right e h.events _ (
          reactions-Has db (settled h.store t new) new _ r e
            (get_dependents-Has h.store.rows t r stored on) waiting k))
  ]

  -- While the database answers, what becomes of a known dependent that waited for a task which ends
  -- and that nothing blocks any more is decided by its stored dependencies after the update: it is
  -- reported as unblocked and all of them have completed, or its cancellation is asked for and one of
  -- them has failed or was cancelled.
  pub resolve_decides :
      Answers db r.task_id
      → is_blocked (settled h.store t new) r.task_id ≡ false
      → r.task_id ∈ h.store.tasks
      → (IsReady (settled h.store t new) r.task_id
          × Has (unblocked r.task_id) (resolve_dependencies db h t new).0.events)
        ⊎ (HasBad (settled h.store t new) r.task_id
            × Has (cancellation_requested r.task_id) (resolve_dependencies db h t new).0.events)
  resolve_decides answers free known =
      elim (reaction-free db (settled h.store t new) new r answers free known) [
        | inl (ready, k) ↦ inl (ready, emitted (unblocked r.task_id) k)
        | inr (bad, k) ↦ inr (bad, emitted (cancellation_requested r.task_id) k)
      ]

  abbrev updated : Row
  updated = record r { resolution = new }

  updated-Has : (rows : List Row) → Has r rows → Has updated (resolve_dependencies_batch rows t new)
  unfolding resolve_dependencies_batch settle
  updated-Has [] k = absurd k
  updated-Has (q ∷ rows) (inl same) = inl (rw (← same) (ground arith))
  updated-Has (q ∷ rows) (inr k) = inr (updated-Has rows k)

  -- While the database answers, when a task fails or is cancelled, each dependent that waited for it
  -- and that nothing blocks any more is asked to be cancelled.
  pub resolve_cascades :
      db.blocked r.task_id ≡ true
      → db.dependencies r.task_id ≡ true
      → is_bad new ≡ true
      → is_blocked (settled h.store t new) r.task_id ≡ false
      → Has (cancellation_requested r.task_id) (resolve_dependencies db h t new).0.events
  resolve_cascades told told' bad free = emitted (cancellation_requested r.task_id) (
      reaction_bad db (settled h.store t new) new r updated told told' free
        (updated-Has h.store.rows stored) refl bad)
