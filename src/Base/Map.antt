-- ===== src/Base/Map.antt =====
-- std::map, std::unordered_map and std::unordered_set: association lists in the order of insertion,
-- one entry to a key. Where the program iterates over an unordered container, that order stands for
-- the unspecified order of the C++ container.
pub mod Distinct
pub mod Nested
use mathlib.Core.Option
use foxglove_bridge_release.Base.Tests.{if◌then◌else◌, Option-cases}
use foxglove_bridge_release.Base.Eq.{Eq, ◌==◌, ==_iff}
use Prim.Native.Nat.{ℕ}
use mathlib.Core.Path.{◌≡◌, refl}
use mathlib.Core.Bool.{Bool, true, false}
use mathlib.Core.Logic.{inl, inr}
use mathlib.Core.Option.{Option, none, some}
use mathlib.Core.List.{List, [], ◌∷◌}
use native.Mathlib.Omega.{arith}

abbrev pub Map {ℓ κ} : Type ℓ → Type κ → Type (ℓ ⊔ κ)
Map K V = List (K × V)

abbrev pub is_some {ℓ} : {A : Type ℓ} → Option A → Bool
is_some none = false
is_some (some a) = true

abbrev pub get_or {ℓ} : {A : Type ℓ} → A → Option A → A
get_or d none = d
get_or d (some a) = a

-- Key by key, each entry stands once.
module _ {ℓ κ} {K : Type ℓ} {V : Type κ} ⦃e : Eq K⦄ where
  -- m.find(k), with `none` for m.end()
  unfoldable pub find : K → Map K V → Option V
  find k [] = none
  find k ((j, v) ∷ m) = if j == k then some v else find k m

  -- m.emplace(k, v): an entry that is there stays.
  unfoldable pub emplace : K → V → Map K V → Map K V
  emplace k v [] = (k, v) ∷ []
  emplace k v ((j, w) ∷ m) = if j == k then (j, w) ∷ m else (j, w) ∷ emplace k v m

  -- m.erase(k)
  unfoldable pub erase : K → Map K V → Map K V
  erase k [] = []
  erase k ((j, w) ∷ m) = let rest = erase k m in if j == k then rest else (j, w) ∷ rest

  -- a write through a reference to the entry of k
  unfoldable pub update : K → (V → V) → Map K V → Map K V
  update k f [] = []
  update k f ((j, w) ∷ m) = if j == k then (j, f w) ∷ m else (j, w) ∷ update k f m

  pub find-emplace :
      (k j : K) (v : V) (m : Map K V)
      → find j (emplace k v m) ≡ (if k == j then some (get_or v (find k m)) else find j m)
  unfolding find emplace
  find-emplace k j v [] = refl
  find-emplace k j v ((i, w) ∷ m) =
      ground (arith, ==_iff k j, ==_iff i k, ==_iff i j, find-emplace k j v m)

  -- An entry that is there makes emplace do nothing.
  pub emplace_present : (k : K) (v w : V) (m : Map K V) → find k m ≡ some w → emplace k v m ≡ m
  unfolding find emplace
  emplace_present k v w [] h = cc
  emplace_present k v w ((i, u) ∷ m) h = ground (arith, emplace_present k v w m)

  pub find-erase :
      (k j : K) (m : Map K V) → find j (erase k m) ≡ (if k == j then none else find j m)
  unfolding find erase
  find-erase k j [] = ground arith
  find-erase k j ((i, w) ∷ m) = ground (arith, ==_iff k j, ==_iff i k, ==_iff i j, find-erase k j m)

  pub find-update :
      (k j : K) (f : V → V) (m : Map K V)
      → find j (update k f m) ≡ (if k == j then Option.map f (find j m) else find j m)
  unfolding find update
  find-update k j f [] = ground arith
  find-update k j f ((i, w) ∷ m) =
      ground (arith, ==_iff k j, ==_iff i k, ==_iff i j, find-update k j f m)

-- a loop that writes to the value of every entry
module _ {ℓ κ} {K : Type ℓ} {V : Type κ} ⦃e : Eq K⦄ where
  abbrev pub map_values : (V → V) → Map K V → Map K V
  map_values f [] = []
  map_values f ((k, v) ∷ m) = (k, f v) ∷ map_values f m

  pub find-map_values :
      (k : K) (f : V → V) (m : Map K V) → find k (map_values f m) ≡ Option.map f (find k m)
  unfolding find
  find-map_values k f [] = refl
  find-map_values k f ((i, w) ∷ m) = ground (arith, find-map_values k f m)

-- std::unordered_set
module _ {ℓ} {K : Type ℓ} ⦃e : Eq K⦄ where
  unfoldable pub contains : K → List K → Bool
  contains k [] = false
  contains k (j ∷ s) = if j == k then true else contains k s

  unfoldable pub insert : K → List K → List K
  insert k [] = k ∷ []
  insert k (j ∷ s) = if j == k then j ∷ s else j ∷ insert k s

  pub contains-insert :
      (k j : K) (s : List K) → contains j (insert k s) ≡ (if k == j then true else contains j s)
  unfolding contains insert
  contains-insert k j [] = refl
  contains-insert k j (i ∷ s) =
      ground (arith, ==_iff k j, ==_iff i k, ==_iff i j, contains-insert k j s)
