-- ===== src/Schedules/Due.antt =====
-- A schedule whose time has come is run by the next tick.
use autobeat.Prelude.{
  ℕ, String, true, ◌&&◌, ◌⊎◌, some, List, [], ◌∷◌, if_both, ◌≡◌, ◌≢◌, refl, sym, subst, ap, arith,
  inl, inr,
}
use autobeat.Schedules.Schedule.{Schedule, is_active}
use autobeat.Schedules.Store.{find_row, write_row, is_reached, is_before, insert_due, find_due}
use autobeat.Schedules.Untouched.{IsFree}

-- One schedule of the list has that id, and it is this one.
abbrev pub IsOnce : String → Schedule → List Schedule → Type 0
IsOnce k r [] = ⊥
IsOnce k r (q ∷ qs) = ((q ≡ r) × IsFree k qs) ⊎ ((q.id ≢ k) × IsOnce k r qs)

insert-IsFree :
    (k : String) (q : Schedule) (qs : List Schedule)
    → q.id ≢ k
    → IsFree k qs
    → IsFree k (insert_due q qs)
unfolding insert_due
insert-IsFree k q [] n free = (n, tt)
insert-IsFree k q (p ∷ ps) n (m, free) =
    if_both (IsFree k) (is_before q.next_run_at p.next_run_at) (λ _. (n, (m, free)))
      (λ _. (m, insert-IsFree k q ps n free))

due-IsFree :
    (k : String) (rows : List Schedule) (now : ℕ) → IsFree k rows → IsFree k (find_due rows now)
unfolding find_due
due-IsFree k [] now free = tt
due-IsFree k (q ∷ rows) now (n, free) =
    if_both (IsFree k) (is_active q.status && is_reached q.next_run_at now)
      (λ _. insert-IsFree k q (find_due rows now) n (due-IsFree k rows now free))
      (λ _. due-IsFree k rows now free)

insert_new-IsOnce :
    (k : String) (r : Schedule) (qs : List Schedule)
    → r.id ≡ k
    → IsFree k qs
    → IsOnce k r (insert_due r qs)
unfolding insert_due
insert_new-IsOnce k r [] e free = inl (refl, tt)
insert_new-IsOnce k r (p ∷ ps) e (m, free) =
    if_both (IsOnce k r) (is_before r.next_run_at p.next_run_at) (λ _. inl (refl, (m, free)))
      (λ _. inr (m, insert_new-IsOnce k r ps e free))

insert-IsOnce :
    (k : String) (r q : Schedule) (qs : List Schedule)
    → q.id ≢ k
    → IsOnce k r qs
    → IsOnce k r (insert_due q qs)
unfolding insert_due
insert-IsOnce k r q [] n h = absurd h
insert-IsOnce k r q (p ∷ ps) n (inl (e, free)) =
    if_both (IsOnce k r) (is_before q.next_run_at p.next_run_at) (λ _. inr (n, inl (e, free)))
      (λ _. inl (e, insert-IsFree k q ps n free))
insert-IsOnce k r q (p ∷ ps) n (inr (m, h)) =
    if_both (IsOnce k r) (is_before q.next_run_at p.next_run_at) (λ _. inr (n, inr (m, h)))
      (λ _. inr (m, insert-IsOnce k r q ps n h))

pub due-IsOnce :
    (k : String) (r : Schedule) (rows : List Schedule) (now : ℕ)
    → r.id ≡ k
    → (is_active r.status && is_reached r.next_run_at now) ≡ true
    → IsOnce k r rows
    → IsOnce k r (find_due rows now)
unfolding find_due
due-IsOnce k r [] now e due h = absurd h
due-IsOnce k r (q ∷ rows) now e due (inl (same, free)) =
    subst (λ (x : Schedule). IsOnce k r (find_due (x ∷ rows) now)) (sym same)
      (if_both (IsOnce k r) (is_active r.status && is_reached r.next_run_at now)
        (λ _. insert_new-IsOnce k r (find_due rows now) e (due-IsFree k rows now free))
        (λ off. absurd cc))
due-IsOnce k r (q ∷ rows) now e due (inr (n, h)) =
    if_both (IsOnce k r) (is_active q.status && is_reached q.next_run_at now)
      (λ _. insert-IsOnce k r q (find_due rows now) n (due-IsOnce k r rows now e due h))
      (λ _. due-IsOnce k r rows now e due h)

pub once-find :
    (k : String) (r : Schedule) (rows : List Schedule)
    → r.id ≡ k
    → IsOnce k r rows
    → find_row rows k ≡ some r
unfolding find_row
once-find k r [] e h = absurd h
once-find k r (q ∷ rows) e (inl (same, free)) =
    ground (arith, ap (λ (x : Schedule). x.id) same, same)
once-find k r (q ∷ rows) e (inr (n, h)) = ground (arith, once-find k r rows e h)

pub find-write_same :
    (rows : List Schedule) (r new : Schedule)
    → find_row rows new.id ≡ some r
    → find_row (write_row rows new) new.id ≡ some new
unfolding find_row write_row
find-write_same [] r new e = absurd cc
find-write_same (q ∷ rows) r new e = ground (arith, find-write_same rows r new)
