-- ===== src/Base/Maps.antt =====
-- `std::map`: an association list that insertion keeps in the order of its keys.
use mathlib.Core.Path.{◌≡◌, refl}
use mathlib.Core.Logic.{◌↔◌, inl, inr}
use mathlib.Core.Bool.{Bool, true}
use mathlib.Core.Option
use mathlib.Core.Option.{Option, none, some}
use mathlib.Core.List.{List, [], ◌∷◌}
use native.Mathlib.Omega.{arith}
use relay_proxy.Base.Tests.{if◌then◌else◌, is_some, Option-cases}
use relay_proxy.Base.Int.{ℤ, eqb_ℤ, ltb_ℤ, eqb_ℤ_iff}
use relay_proxy.Base.Strings.{Bytes, eqb, bytes_lt, eqb_iff}

pub record Key {ℓ} (K : Type ℓ) : Type ℓ where
  pub beq : K → K → Bool
  pub blt : K → K → Bool
  pub beq_iff : (a b : K) → (beq a b ≡ true) ↔ (a ≡ b)

instance abbrev pub int_key : Key ℤ
int_key = record { beq = eqb_ℤ; blt = ltb_ℤ; beq_iff = eqb_ℤ_iff }

instance abbrev pub bytes_key : Key Bytes
bytes_key = record { beq = eqb; blt = bytes_lt; beq_iff = eqb_iff }

abbrev pub Map {ℓ κ} : Type ℓ → Type κ → Type (ℓ ⊔ κ)
Map K V = List (K × V)

module _ {ℓ κ} {K : Type ℓ} {V : Type κ} ⦃key : Key K⦄ where
  unfoldable pub find : K → Map K V → Option V
  find k [] = none
  find k ((j, v) ∷ m) = if key.beq j k then some v else find k m

  abbrev pub count : K → Map K V → Bool
  count k m = is_some (find k m)

  -- `m[k] = v`
  unfoldable pub insert : K → V → Map K V → Map K V
  insert k v [] = (k, v) ∷ []
  insert k v ((j, w) ∷ m) =
      if key.beq j k
      then (k, v) ∷ m
      else (if key.blt k j then (k, v) ∷ (j, w) ∷ m else (j, w) ∷ insert k v m)

  -- `m.insert(value_type(k, v))`: an entry that is there stays.
  unfoldable pub emplace : K → V → Map K V → Map K V
  emplace k v m = if count k m then m else insert k v m

  pub find-insert :
      (k j : K) (v : V) (m : Map K V)
      → find j (insert k v m) ≡ (if key.beq k j then some v else find j m)
  unfolding find insert
  find-insert k j v [] = refl
  find-insert k j v ((i, w) ∷ m) =
      ground (arith, key.beq_iff i k, key.beq_iff k j, key.beq_iff i j, find-insert k j v m)

  pub find-emplace :
      (k j : K) (v : V) (m : Map K V)
      → find j (emplace k v m)
        ≡ (if count j m then find j m else (if key.beq k j then some v else none))
  unfolding emplace
  find-emplace k j v m = ground (arith, find-insert k j v m, key.beq_iff k j)

  pub find-insert_self : (k : K) (v : V) (m : Map K V) → find k (insert k v m) ≡ some v
  find-insert_self k v m = ground (arith, find-insert k k v m, key.beq_iff k k)

  -- A call of a method on the value that `m.find(k)` points to; nothing where it is `end()`.
  unfoldable pub modify : K → (V → V) → Map K V → Map K V
  modify k f m = elim (find k m) [ none ↦ m | some v ↦ insert k (f v) m ]

  pub find-modify :
      (k j : K) (f : V → V) (m : Map K V)
      → find j (modify k f m) ≡ (if key.beq k j then Option.map f (find j m) else find j m)
  unfolding modify
  find-modify k j f m = elim (Option-cases (find k m)) [
    | inl e ↦ ground (arith, e, key.beq_iff k j)
    | inr (v, e) ↦ ground (arith, e, key.beq_iff k j, find-insert k j (f v) m)
  ]

  -- A loop over all values, `for (it = m.begin(); …) it->second = f(it->second)`.
  unfoldable pub map_values : (V → V) → Map K V → Map K V
  map_values f [] = []
  map_values f ((j, v) ∷ m) = (j, f v) ∷ map_values f m

  pub find-map_values :
      (j : K) (f : V → V) (m : Map K V) → find j (map_values f m) ≡ Option.map f (find j m)
  unfolding find map_values
  find-map_values j f [] = refl
  find-map_values j f ((i, v) ∷ m) = ground (arith, find-map_values j f m)
