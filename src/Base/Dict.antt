-- ===== src/Base/Dict.antt =====
-- Python's dicts in insertion order, over keys with an equality test.
use Prim.Native.String.{String}
use mathlib.Core.Path.{◌≡◌, refl}
use mathlib.Core.Logic.{◌↔◌}
use mathlib.Core.Bool.{Bool, true}
use mathlib.Core.Option.{Option, none, some}
use mathlib.Core.List.{List, [], ◌∷◌}
use Prim.Native.Nat.{ℕ}
use native.Mathlib.Omega.{arith}
use text.Mathlib.Text.{◌==◌ as str_eq}
use text.Mathlib.TextEquality.{eq_iff}
use file_extractor.Base.Tests.{if◌then◌else◌, ◌==◌ as nat_eq}

pub record Key {ℓ} (K : Type ℓ) : Type ℓ where
  pub same : K → K → Bool
  pub same_iff : (a b : K) → (same a b ≡ true) ↔ (a ≡ b)

pub nat_same_iff : (a b : ℕ) → (nat_eq a b ≡ true) ↔ (a ≡ b)
nat_same_iff a b = (λ h. ground arith, λ h. ground arith)

instance abbrev pub nat_key : Key ℕ
nat_key = record { same = nat_eq; same_iff = nat_same_iff }

instance abbrev pub string_key : Key String
string_key = record { same = str_eq; same_iff = eq_iff }

abbrev pub Dict {ℓ κ} : Type ℓ → Type κ → Type (ℓ ⊔ κ)
Dict K V = List (K × V)

module _ {ℓ κ} {K : Type ℓ} {V : Type κ} ⦃k : Key K⦄ where
  -- `d.get(key)`
  unfoldable pub lookup : K → Dict K V → Option V
  lookup a [] = none
  lookup a ((b, v) ∷ d) = if k.same b a then some v else lookup a d

  -- `d[key] = value`: an old key keeps its place.
  unfoldable pub insert : K → V → Dict K V → Dict K V
  insert a v [] = (a, v) ∷ []
  insert a v ((b, w) ∷ d) = if k.same b a then (b, v) ∷ d else (b, w) ∷ insert a v d

  pub lookup-insert :
      (a c : K) (v : V) (d : Dict K V)
      → lookup c (insert a v d) ≡ (if k.same a c then some v else lookup c d)
  unfolding lookup insert
  lookup-insert a c v [] = refl
  lookup-insert a c v ((b, w) ∷ d) =
      ground (arith, k.same_iff b a, k.same_iff b c, k.same_iff a c, lookup-insert a c v d)

  -- `d.get(key, default)`
  abbrev pub get : K → V → Dict K V → V
  get a v d = elim (lookup a d) [ none ↦ v | some w ↦ w ]
