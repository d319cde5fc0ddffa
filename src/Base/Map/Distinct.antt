-- ===== src/Base/Map/Distinct.antt =====
-- Maps in which each key stands once, and the maps on which an invariant of all entries holds.

use foxglove_bridge_release.Base.{◌≡◌, refl, inl, inr, Option-cases, none, some, [], ◌∷◌, arith}
use foxglove_bridge_release.Base.Eq.{Eq, ==_iff}
use foxglove_bridge_release.Base.Map.{
  Map, find, emplace, erase, update, find-emplace, find-erase, find-update,
}

module _ {ℓ κ} {K : Type ℓ} {V : Type κ} ⦃e : Eq K⦄ where
  abbrev pub Distinct : Map K V → Type κ
  Distinct [] = Unit
  Distinct ((k, v) ∷ m) = (find k m ≡ none) × Distinct m

  pub emplace-Distinct : (k : K) (v : V) (m : Map K V) → Distinct m → Distinct (emplace k v m)
  unfolding emplace find
  emplace-Distinct k v [] d = (refl, tt)
  emplace-Distinct k v ((j, w) ∷ m) d =
      ground (arith, ==_iff j k, ==_iff k j, find-emplace k j v m, emplace-Distinct k v m d.1)

  pub erase-Distinct : (k : K) (m : Map K V) → Distinct m → Distinct (erase k m)
  unfolding erase
  erase-Distinct k [] d = tt
  erase-Distinct k ((j, w) ∷ m) d =
      ground (arith, ==_iff j k, ==_iff k j, find-erase k j m, erase-Distinct k m d.1)

  pub update-Distinct : (k : K) (f : V → V) (m : Map K V) → Distinct m → Distinct (update k f m)
  unfolding update
  update-Distinct k f [] d = tt
  update-Distinct k f ((j, w) ∷ m) d =
      ground (arith, ==_iff j k, ==_iff k j, find-update k j f m, update-Distinct k f m d.1)

-- An invariant of every entry, kept by each operation.
module _ {ℓ κ μ} {K : Type ℓ} {V : Type κ} ⦃e : Eq K⦄ (P : K → V → Type μ) where
  abbrev pub Every : Map K V → Type (ℓ ⊔ κ ⊔ μ)
  Every m = (k : K) (v : V) → find k m ≡ some v → P k v

  pub emplace-Every : (k : K) (v : V) (m : Map K V) → P k v → Every m → Every (emplace k v m)
  emplace-Every k v m p h j w q = ground (arith, ==_iff k j, find-emplace k j v m, h j w)

  pub erase-Every : (k : K) (m : Map K V) → Every m → Every (erase k m)
  erase-Every k m h j w q = ground (arith, find-erase k j m, h j w)

  pub update-Every :
      (k : K) (f : V → V) (m : Map K V)
      → ((v : V) → find k m ≡ some v → P k v → P k (f v))
      → Every m
      → Every (update k f m)
  update-Every k f m step h j w q = elim (Option-cases (find j m)) [
    | inl gone ↦ ground (arith, ==_iff k j, find-update k j f m)
    | inr (v, there) ↦ ground (arith, ==_iff k j, find-update k j f m, h j v there, step v)
  ]
