-- ===== src/Result.antt =====
-- src/core/result.ts, and the errors of src/core/errors.ts with the code that they carry.
use autobeat.Prelude.{List, [], ◌∷◌, ◌≡◌, refl, ◌⊎◌, inl, inr}

-- `ErrorCode`, as far as the modelled parts use it.
pub data ErrorCode : Type 0 where
  invalid_operation invalid_input resource_exhausted resource_limit_exceeded : ErrorCode
  configuration_error system_error task_not_found : ErrorCode

pub data Result {ℓ κ} (T : Type ℓ) (E : Type κ) : Type (ℓ ⊔ κ) where
  ok : T → Result T E
  err : E → Result T E

module _ {ℓ κ μ} {T : Type ℓ} {U : Type μ} {E : Type κ} where
  unfoldable pub map : Result T E → (T → U) → Result U E
  map (ok v) fn = ok (fn v)
  map (err e) fn = err e

  unfoldable pub flat_map : Result T E → (T → Result U E) → Result U E
  flat_map (ok v) fn = fn v
  flat_map (err e) fn = err e

-- The loop of `combine` over the results still to be read.
unfoldable pub combine {ℓ κ} : {T : Type ℓ} {E : Type κ} → List (Result T E) → Result (List T) E
unfolding map
combine [] = ok []
combine (ok v ∷ rs) = map (combine rs) (λ vs. v ∷ vs)
combine (err e ∷ rs) = err e

pub Result-cases {ℓ κ} :
    {T : Type ℓ} {E : Type κ} (r : Result T E) → ((v : T) × (r ≡ ok v)) ⊎ ((e : E) × (r ≡ err e))
Result-cases (ok v) = inl (v, refl)
Result-cases (err e) = inr (e, refl)
