-- ===== src/Schedules/Rows.antt =====
-- What holds of every row, and of each row that is written, holds of the rows afterwards.
use autobeat.Prelude.{String, some, List, [], ◌∷◌, ◌≡◌, subst, arith, String-discrete}
use autobeat.Schedules.Schedule.{Schedule}
use autobeat.Schedules.Store.{find_row, write_row, save_row}

pub find-id :
    (rows : List Schedule) (id : String) (r : Schedule) → find_row rows id ≡ some r → r.id ≡ id
unfolding find_row
find-id [] id r e = absurd cc
find-id (q ∷ rows) id r e = elim (String-discrete q.id id) [
  | yes same ↦ let here : q ≡ r = ground arith in subst (λ (x : Schedule). x.id ≡ id) here same
  | no other ↦ find-id rows id r (ground arith)
]

pub some_inj : (r q : Schedule) → some r ≡ some q → r ≡ q
some_inj r q e = cc

module _ (P : Schedule → Type 0) where
  abbrev pub All : List Schedule → Type 0
  All [] = Unit
  All (r ∷ rows) = P r × All rows

  pub find-All :
      (rows : List Schedule) (id : String) (r : Schedule)
      → find_row rows id ≡ some r
      → All rows
      → P r
  unfolding find_row
  find-All [] id r e h = absurd cc
  find-All (q ∷ rows) id r e (h, hs) = elim (String-discrete q.id id) [
    | yes same ↦ let here : q ≡ r = ground arith in subst P here h
    | no other ↦ find-All rows id r (ground arith) hs
  ]

  pub write-All :
      (rows : List Schedule) (new : Schedule) → P new → All rows → All (write_row rows new)
  unfolding write_row
  write-All [] new p h = tt
  write-All (r ∷ rows) new p (h, hs) = ground (arith, write-All rows new p hs)

  pub save-All :
      (rows : List Schedule) (new : Schedule) → P new → All rows → All (save_row rows new)
  unfolding save_row
  save-All [] new p h = (p, tt)
  save-All (r ∷ rows) new p (h, hs) = ground (arith, save-All rows new p hs)
