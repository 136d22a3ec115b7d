-- ===== src/Prelude/Dicts.antt =====
-- Python's dicts as the lists of their items: `get` and assignment.
use Prim.Native.String.{String}
use mathlib.Core.Path.{◌≡◌, sym}
use mathlib.Core.Logic.{◌≢◌, inl, inr}
use mathlib.Core.Option.{Option, none, some}
use mathlib.Core.List.{List, [], ◌∷◌, Memᴰ}
use com_mcm.Prelude.Tests.{if◌then◌else◌, ◌==◌, text_eq_instance, Bool-cases}

-- `mapping.get(key)`
unfoldable pub lookup {ℓ} : {A : Type ℓ} → String → List (String × A) → Option A
lookup key [] = none
lookup key ((k, a) ∷ rest) = if k == key then some a else lookup key rest

-- `mapping[key] = value`
unfoldable pub put {ℓ} : {A : Type ℓ} → String → A → List (String × A) → List (String × A)
put key value [] = (key, value) ∷ []
put key value ((k, a) ∷ rest) = if k == key then (k, value) ∷ rest else (k, a) ∷ put key value rest

pub none-some {ℓ} : {A : Type ℓ} {a : A} → none ≢ some a
none-some h = cc

pub some-injective {ℓ} : {A : Type ℓ} {a b : A} → some a ≡ some b → a ≡ b
some-injective h = cc

-- What is found is an item.
pub Memᴰ-lookup {ℓ} :
    {A : Type ℓ} (key : String) (a : A) (items : List (String × A))
    → lookup key items ≡ some a
    → Memᴰ (key, a) items
unfolding lookup
Memᴰ-lookup key a [] h = cc
Memᴰ-lookup key a ((k, b) ∷ rest) h = elim (Bool-cases (k == key)) [
  | inl y ↦
      let e : some b ≡ some a = rw y at h in
      let p = (text_eq_instance.beq_iff k key).0 y in
      let q = some-injective e in Memᴰ.head (λ i. (sym p i, sym q i))
  | inr n ↦ let e : lookup key rest ≡ some a = rw n at h in Memᴰ.tail (Memᴰ-lookup key a rest e)
]
