-- ===== src/Prelude/Sets.antt =====
-- Python's sets over the lists of their members: `in`, `add`, and the set of a sequence.
use mathlib.Core.Path.{◌≡◌}
use mathlib.Core.Logic.{◌↔◌, ◌⊎◌, inl, inr}
use mathlib.Core.Bool.{Bool, true, false, ◌||◌}
use mathlib.Core.List.{List, [], ◌∷◌, Memᴰ}
use mathlib.Core.List.Memᴰ
use native.Mathlib.Omega.{arith}
use com_mcm.Prelude.Tests.{if◌then◌else◌, Bool-cases, Eq, ◌==◌}
use com_mcm.Prelude.Lists.{Memᴰ-cons}

module _ {ℓ} {A : Type ℓ} ⦃e : Eq A⦄ where
  -- `a in xs`
  unfoldable pub has : A → List A → Bool
  has a [] = false
  has a (x ∷ xs) = a == x || has a xs

  -- `xs.add(a)`
  unfoldable pub add : A → List A → List A
  add a xs = if has a xs then xs else a ∷ xs

  -- `set(xs)`
  unfoldable pub to_set : List A → List A
  unfolding add has
  to_set [] = []
  to_set (x ∷ xs) = add x (to_set xs)

  pub has_iff : (a : A) (xs : List A) → (has a xs ≡ true) ↔ Memᴰ a xs
  unfolding has
  has_iff a [] = (λ h. cc, λ h. absurd (Memᴰ.not-nil h))
  has_iff a (x ∷ xs) = ground (arith, Memᴰ-cons a x xs, e.beq_iff a x, has_iff a xs)

  pub has-eq-false : (a : A) (xs : List A) → ¬ Memᴰ a xs → has a xs ≡ false
  has-eq-false a xs h = elim (Bool-cases (has a xs)) [
    | inl t ↦ absurd (h ((has_iff a xs).0 t))
    | inr f ↦ f
  ]

  pub not-Memᴰ : (a : A) (xs : List A) → has a xs ≡ false → ¬ Memᴰ a xs
  not-Memᴰ a xs h m = ground (arith, (has_iff a xs).1 m)

  pub Memᴰ-add : (a x : A) (xs : List A) → Memᴰ a (add x xs) ↔ ((a ≡ x) ⊎ Memᴰ a xs)
  unfolding add
  Memᴰ-add a x xs = elim (Bool-cases (has x xs)) [
    | inl h ↦ rw h (inr, λ m. elim m [ inl p ↦ Memᴰ.cast p ((has_iff x xs).0 h) | inr k ↦ k ])
    | inr h ↦ rw h (Memᴰ-cons a x xs)
  ]

  pub Memᴰ-to_set : (a : A) (xs : List A) → Memᴰ a (to_set xs) ↔ Memᴰ a xs
  unfolding to_set
  Memᴰ-to_set a [] = (λ h. h, λ h. h)
  Memᴰ-to_set a (x ∷ xs) =
      ground (arith, Memᴰ-add a x (to_set xs), Memᴰ-to_set a xs, Memᴰ-cons a x xs)
