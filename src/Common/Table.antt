-- ===== src/Common/Table.antt =====
-- Go's map[string]V: an association list with a key at most once.
use mathlib.Core.Path.{◌≡◌, refl}
use mathlib.Core.Option.{Option, none, some, some-injective}
use mathlib.Core.Logic.{◌⊎◌, inl, inr}
use mathlib.Core.List.{List, [], ◌∷◌}
use native.Mathlib.Omega.{arith}
use xns.Common.Text.{Bytes, same, same_iff, same_self}
use xns.Common.Tests.{if◌then◌else◌, Bool-cases}

abbrev pub Table {ℓ} : Type ℓ → Type ℓ
Table V = List (Bytes × V)

module _ {ℓ} {V : Type ℓ} where
  -- `v, ok := m[k]`
  unfoldable pub get : Table V → Bytes → Option V
  get [] k = none
  get ((j, v) ∷ m) k = if same j k then some v else get m k

  -- `m[k] = v`
  unfoldable pub put : Table V → Bytes → V → Table V
  put [] k v = (k, v) ∷ []
  put ((j, w) ∷ m) k v = if same j k then (j, v) ∷ m else (j, w) ∷ put m k v

  pub get-put :
      (m : Table V) (k j : Bytes) (v : V)
      → get (put m k v) j ≡ (if same k j then some v else get m j)
  unfolding get put
  get-put [] k j v = refl
  get-put ((i, w) ∷ m) k j v =
      ground (arith, same_iff k j, same_iff i k, same_iff i j, get-put m k j v)

  pub get-put_self : (m : Table V) (k : Bytes) (v : V) → get (put m k v) k ≡ some v
  get-put_self m k v = simp (get-put, same_self)

  -- What stands in a map after a write was written, or stood there before.
  pub put-inversion :
      (m : Table V) (k j : Bytes) (v w : V)
      → get (put m k v) j ≡ some w
      → ((k ≡ j) × (v ≡ w)) ⊎ (get m j ≡ some w)
  put-inversion m k j v w h = elim (Bool-cases (same k j)) [
    | inl e ↦ inl ((same_iff k j).0 e, some-injective v w (rw (get-put, e) at h))
    | inr e ↦ inr (rw (get-put, e) at h)
  ]

pub get-nil {ℓ} : {V : Type ℓ} (k : Bytes) → get {V = V} [] k ≡ none
unfolding get
get-nil k = refl
