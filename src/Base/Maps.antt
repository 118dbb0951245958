-- ===== src/Base/Maps.antt =====
-- Hash maps as functions from keys to optional values, over an interface of an equality test.
use mathlib.Core.Path.{◌≡◌}
use mathlib.Core.Logic.{◌↔◌}
use mathlib.Core.Bool.{Bool, true, false}
use mathlib.Core.Option.{Option, none, some}
use allgres.Base.Tests.{if◌then◌else◌}

-- What a key type offers: `Eq` of the source, with the law that makes it equality.
pub record Key {ℓ} (K : Type ℓ) : Type ℓ where
  pub same : K → K → Bool
  pub same_iff : (a b : K) → (same a b ≡ true) ↔ (a ≡ b)

abbrev pub Map {ℓ κ} : Type ℓ → Type κ → Type (ℓ ⊔ κ)
Map K V = K → Option V

module _ {κ} {V : Type κ} where
  abbrev pub keep_if : (V → Bool) → Option V → Option V
  keep_if p none = none
  keep_if p (some v) = if p v then some v else none

  -- `unwrap_or`, `unwrap_or_default` with the default written out
  abbrev pub value_or : V → Option V → V
  value_or d none = d
  value_or d (some v) = v

  abbrev pub is_some : Option V → Bool
  is_some none = false
  is_some (some v) = true

module _ {ℓ κ} {K : Type ℓ} {V : Type κ} where
  abbrev pub empty_map : Map K V
  empty_map k = none

  -- `HashMap::insert`
  abbrev pub insert : ⦃e : Key K⦄ → K → V → Map K V → Map K V
  insert ⦃e⦄ k v m j = if e.same k j then some v else m j

  -- `HashMap::remove`, the new map alone
  abbrev pub remove : ⦃e : Key K⦄ → K → Map K V → Map K V
  remove ⦃e⦄ k m j = if e.same k j then none else m j

  -- `HashMap::retain` with a test on the values
  abbrev pub retain : (V → Bool) → Map K V → Map K V
  retain p m j = keep_if p (m j)
