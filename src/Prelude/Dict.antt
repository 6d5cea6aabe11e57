-- ===== src/Prelude/Dict.antt =====
-- A JavaScript `Map<string, V>` as an association list in insertion order.
use Prim.Native.String.{String}
use mathlib.Core.Path.{◌≡◌, refl}
use mathlib.Core.Logic.{◌≢◌, ite}
use mathlib.Core.Option.{Option, none, some}
use mathlib.Core.List.{List, [], ◌∷◌}
use native.Mathlib.Omega.{arith}
use autobeat.Prelude.Sets.{String-discrete, ◌∈◌}

abbrev pub Dict : Type 0 → Type 0
Dict V = List (String × V)

abbrev pub keys : {V : Type 0} → Dict V → List String
keys [] = []
keys ((k, v) ∷ m) = k ∷ keys m

module _ {V : Type 0} where
  -- `Map.prototype.get`
  unfoldable pub get : Dict V → String → Option V
  unfolding String-discrete
  get [] k = none
  get ((j, v) ∷ m) k = ite (String-discrete k j) (some v) (get m k)

  -- `Map.prototype.set`: a known key keeps its place, a new one goes to the end.
  unfoldable pub set : Dict V → String → V → Dict V
  unfolding String-discrete
  set [] k v = (k, v) ∷ []
  set ((j, w) ∷ m) k v = ite (String-discrete k j) ((j, v) ∷ m) ((j, w) ∷ set m k v)

  -- `Map.prototype.delete`
  unfoldable pub delete : Dict V → String → Dict V
  unfolding String-discrete
  delete [] k = []
  delete ((j, w) ∷ m) k = ite (String-discrete k j) (delete m k) ((j, w) ∷ delete m k)

  pub get-set :
      (m : Dict V) (k : String) (v : V) (j : String)
      → get (set m k v) j ≡ ite (String-discrete j k) (some v) (get m j)
  unfolding get set
  get-set [] k v j = refl
  get-set ((i, w) ∷ m) k v j = ground (arith, get-set m k v j)

  pub get-delete :
      (m : Dict V) (k j : String) → get (delete m k) j ≡ ite (String-discrete j k) none (get m j)
  unfolding get delete
  get-delete [] k j = ground arith
  get-delete ((i, w) ∷ m) k j = ground (arith, get-delete m k j)

  -- A key is listed exactly when a lookup finds it.
  pub keys-get : (m : Dict V) (k : String) (v : V) → get m k ≡ some v → k ∈ keys m
  unfolding get
  keys-get [] k v e = cc
  keys-get ((i, w) ∷ m) k v e = ground (arith, keys-get m k v)

  pub get-keys : (m : Dict V) (k : String) → k ∈ keys m → get m k ≢ none
  unfolding get
  get-keys [] k h = absurd h
  get-keys ((i, w) ∷ m) k h = ground (arith, get-keys m k)
