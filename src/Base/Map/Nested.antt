-- ===== src/Base/Map/Nested.antt =====
-- Maps of maps: a table per channel by client, or per client by channel, whose empty tables are
-- dropped. Both bridges keep their subscriptions and publications this way.
use Prim.Native.Nat.{ℕ}
use mathlib.Core.Path.{◌≡◌, refl}
use mathlib.Core.Bool.{true, ◌&&◌}
use mathlib.Core.Logic.{inl, inr}
use mathlib.Core.Option.{Option, none, some}
use mathlib.Core.List.{[], ◌∷◌}
use native.Mathlib.Omega.{arith}
use foxglove_bridge_release.Base.Tests.{if◌then◌else◌, Option-cases}
use foxglove_bridge_release.Base.Eq.{◌==◌, ==_iff, id_eq}
use foxglove_bridge_release.Base.Lists.{is_empty}
use foxglove_bridge_release.Base.Map.{
  Map, find, emplace, erase, update, get_or, find-emplace, find-erase, find-update,
}

module _ {ℓ} {V : Type ℓ} where
  -- the value at a pair of keys
  abbrev pub entry_at : ℕ → ℕ → Map ℕ (Map ℕ V) → Option V
  entry_at k j m = elim (find k m) [ none ↦ none | some table ↦ find j table ]

  -- erases the entry, and its table when that is empty then
  abbrev pub erase_entry : ℕ → ℕ → Map ℕ (Map ℕ V) → Map ℕ (Map ℕ V)
  erase_entry k j m = elim (find k m) [
    | none ↦ m
    | some table ↦ elim (find j table) [
      | none ↦ m
      | some x ↦
          if is_empty (erase j table) then erase k (update k (erase j) m) else update k (erase j) m
    ]
  ]

  -- enters the value in its table, which is made first when there is none
  abbrev pub enter_entry : ℕ → ℕ → V → Map ℕ (Map ℕ V) → Map ℕ (Map ℕ V)
  enter_entry k j x m = update k (emplace j x) (emplace k [] m)

  -- the second map is the first with the value given at the pair of keys
  abbrev pub Updated : ℕ → ℕ → Option V → Map ℕ (Map ℕ V) → Map ℕ (Map ℕ V) → Type ℓ
  Updated k j x m m' =
      (k' j' : ℕ) → entry_at k' j' m' ≡ (if (k == k') && (j == j') then x else entry_at k' j' m)

  -- A table that is empty has no entry.
  find-is_empty : (j : ℕ) (m : Map ℕ V) → is_empty m ≡ true → find j m ≡ none
  unfolding find
  find-is_empty j [] e = refl
  find-is_empty j (p ∷ m) e = cc

  pub erase_entry-Updated : (k j : ℕ) (m : Map ℕ (Map ℕ V)) → Updated k j none m (erase_entry k j m)
  erase_entry-Updated k j m k' j' = elim (Option-cases (find k m)) [
    | inl e ↦ ground (arith, e, ==_iff k k')
    | inr (table, e) ↦ ground (
      arith,
      e,
      ==_iff k k',
      ==_iff j j',
      find-erase k k' (update k (erase j) m),
      find-update k k' (erase j) m,
      find-erase j j' table,
      find-is_empty j' (erase j table),
    )
  ]

  -- A table is made empty.
  emplace_table :
      (k k' j' : ℕ) (m : Map ℕ (Map ℕ V)) → entry_at k' j' (emplace k [] m) ≡ entry_at k' j' m
  emplace_table k k' j' m = ground (arith, find-emplace k k' [] m, ==_iff k k', find-is_empty j' [])

  pub enter_entry-Updated :
      (k j : ℕ) (x : V) (m : Map ℕ (Map ℕ V))
      → entry_at k j m ≡ none
      → Updated k j (some x) m (enter_entry k j x m)
  enter_entry-Updated k j x m new k' j' = elim (Option-cases (find k m)) [
    | inl e ↦ ground (
      arith,
      e,
      find-update k k' (emplace j x) (emplace k [] m),
      ==_iff k k',
      find-emplace k k' [] m,
      find-emplace j j' x [],
      ==_iff j j',
      find-is_empty j' [],
    )
    | inr (table, e) ↦ ground (
      arith,
      e,
      new,
      find-update k k' (emplace j x) (emplace k [] m),
      ==_iff k k',
      find-emplace k k' [] m,
      find-emplace j j' x table,
      ==_iff j j',
    )
  ]

  -- What the second key's test after emplace says.
  pub emplace-entry_at :
      (k j : ℕ) (m : Map ℕ (Map ℕ V))
      → find j (get_or [] (find k (emplace k [] m))) ≡ entry_at k j m
  emplace-entry_at k j m = ground (arith, find-emplace k k [] m, ==_iff k k, find-is_empty j [])

  -- A value at the pair of keys that is the one there changes nothing.
  pub Updated-same :
      (k j : ℕ) (x : Option V) (m : Map ℕ (Map ℕ V)) → entry_at k j m ≡ x → Updated k j x m m
  Updated-same k j x m e k' j' = ground (arith, e, ==_iff k k', ==_iff j j')

  pub emplace_table-Updated :
      (k j : ℕ) (m : Map ℕ (Map ℕ V)) → entry_at k j m ≡ none → Updated k j none m (emplace k [] m)
  emplace_table-Updated k j m e k' j' =
      ground (arith, e, ==_iff k k', ==_iff j j', emplace_table k k' j' m)
