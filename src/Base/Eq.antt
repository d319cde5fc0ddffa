-- ===== src/Base/Eq.antt =====
-- Tests for equality as an interface: the keys of the program's maps are handles, ids, texts and
-- pairs of texts.
use Prim.Native.Nat.{ℕ}
use Prim.Native.String.{String}
use mathlib.Core.Path.{◌≡◌, refl}
use mathlib.Core.Logic.{◌↔◌}
use mathlib.Core.Bool.{Bool, true, ◌&&◌}
use native.Mathlib.Omega.{arith}
use text.Mathlib.Text.{◌==◌ as str_eq}
use text.Mathlib.TextEquality.{eq_iff}
use foxglove_bridge_release.Base.Tests.{nat_beq, nat_beq_iff}

pub record Eq {ℓ} (K : Type ℓ) : Type ℓ where
  pub test : K → K → Bool
  pub test_iff : (j k : K) → (test j k ≡ true) ↔ (j ≡ k)

infix 50 ◌==◌
abbrev pub ◌==◌ {ℓ} : {K : Type ℓ} ⦃keys : Eq K⦄ → K → K → Bool
◌==◌ ⦃keys⦄ = keys.test

pub ==_iff {ℓ} : {K : Type ℓ} ⦃keys : Eq K⦄ (j k : K) → ((j == k) ≡ true) ↔ (j ≡ k)
==_iff ⦃keys⦄ j k = keys.test_iff j k

pub ==_refl {ℓ} : {K : Type ℓ} ⦃keys : Eq K⦄ (k : K) → (k == k) ≡ true
==_refl ⦃keys⦄ k = (keys.test_iff k k).1 refl

-- ConnHandle, ChannelId, ClientChannelId
instance abbrev pub id_eq : Eq ℕ
id_eq = record { test = nat_beq; test_iff = nat_beq_iff }

-- std::string
instance abbrev pub string_eq : Eq String
string_eq = record { test = str_eq; test_iff = eq_iff }

-- std::pair's ==, for TopicAndDatatype
abbrev pub pair_test : String × String → String × String → Bool
pair_test (topic, datatype) (topic', datatype') = str_eq topic topic' && str_eq datatype datatype'

pub pair_test_iff : (p q : String × String) → (pair_test p q ≡ true) ↔ (p ≡ q)
pair_test_iff (topic, datatype) (topic', datatype') =
    ground (arith, eq_iff topic topic', eq_iff datatype datatype')

instance abbrev pub pair_eq : Eq (String × String)
pair_eq = record { test = pair_test; test_iff = pair_test_iff }
