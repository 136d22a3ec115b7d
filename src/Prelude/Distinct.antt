-- ===== src/Prelude/Distinct.antt =====
-- Lists without repetition, and counting their members.
use Prim.Native.Nat.{◌≤◌, ◌<◌}
use mathlib.Core.Path.{◌≡◌, refl, sym}
use mathlib.Core.Logic.{inl, inr}
use mathlib.Core.Bool.{Bool, true, not}
use mathlib.Core.List.{List, [], ◌∷◌, ◌++◌, Memᴰ}
use mathlib.Core.List.Memᴰ
use native.Mathlib.Omega.{arith}
use com_mcm.Prelude.Tests.{Bool-cases, Eq, ◌==◌}
use com_mcm.Prelude.Lists.{
  length, filter, sorted, insert_sorted, Memᴰ-filter, Memᴰ-insert_sorted, Memᴰ-sorted,
}
use com_mcm.Prelude.Sets.{has, add, to_set, has_iff, not-Memᴰ}

module _ {ℓ} {A : Type ℓ} where
  abbrev pub NoDup : List A → Type ℓ
  NoDup [] = Unit
  NoDup (x ∷ xs) = ¬ Memᴰ x xs × NoDup xs

  pub filter-NoDup : (p : A → Bool) (xs : List A) → NoDup xs → NoDup (filter p xs)
  unfolding filter
  filter-NoDup p [] d = tt
  filter-NoDup p (x ∷ xs) d = elim (Bool-cases (p x)) [
    | inl y ↦ rw y (λ m. d.0 ((Memᴰ-filter p x xs).0 m).0, filter-NoDup p xs d.1)
    | inr n ↦ rw n (filter-NoDup p xs d.1)
  ]

  pub insert_sorted-NoDup :
      (le : A → A → Bool) (a : A) (xs : List A)
      → ¬ Memᴰ a xs
      → NoDup xs
      → NoDup (insert_sorted le a xs)
  unfolding insert_sorted
  insert_sorted-NoDup le a [] n d = (n, tt)
  insert_sorted-NoDup le a (x ∷ xs) n d = elim (Bool-cases (le a x)) [
    | inl y ↦ rw y (n, d)
    | inr f ↦ rw f (
      λ m. elim ((Memᴰ-insert_sorted le x a xs).0 m) [
        | inl same ↦ n (Memᴰ.head (sym same))
        | inr k ↦ d.0 k
      ],
      insert_sorted-NoDup le a xs (λ m. n (Memᴰ.tail m)) d.1,
    )
  ]

  pub sorted-NoDup : (le : A → A → Bool) (xs : List A) → NoDup xs → NoDup (sorted le xs)
  unfolding sorted
  sorted-NoDup le [] d = tt
  sorted-NoDup le (x ∷ xs) d =
      insert_sorted-NoDup le x (sorted le xs) (λ m. d.0 ((Memᴰ-sorted le x xs).0 m))
        (sorted-NoDup le xs d.1)

  pub NoDup-concat : (xs : List A) (a : A) → NoDup xs → ¬ Memᴰ a xs → NoDup (xs ++ (a ∷ []))
  NoDup-concat [] a d n = (n, tt)
  NoDup-concat (x ∷ xs) a d n = (
    λ m. elim (Memᴰ.append_cases xs m) [
      | inl k ↦ d.0 k
      | inr k ↦ elim (Memᴰ.cases_cons k) [
        | inl same ↦ n (Memᴰ.head (sym same))
        | inr l ↦ Memᴰ.not-nil l
      ]
    ],
    NoDup-concat xs a d.1 (λ m. n (Memᴰ.tail m)),
  )

module _ {ℓ} {A : Type ℓ} ⦃e : Eq A⦄ where
  pub to_set-NoDup : (xs : List A) → NoDup (to_set xs)
  unfolding to_set add
  to_set-NoDup [] = tt
  to_set-NoDup (x ∷ xs) = elim (Bool-cases (has x (to_set xs))) [
    | inl y ↦ rw y (to_set-NoDup xs)
    | inr n ↦ rw n (not-Memᴰ x (to_set xs) n, to_set-NoDup xs)
  ]

  -- The list without the element.
  abbrev without : A → List A → List A
  without a xs = filter (λ x. not (x == a)) xs

  length-filter_le : (p : A → Bool) (xs : List A) → length (filter p xs) ≤ length xs
  unfolding filter
  length-filter_le p [] = omega arith
  length-filter_le p (x ∷ xs) = ground (arith, length-filter_le p xs)

  length-without : (a : A) (xs : List A) → Memᴰ a xs → length (without a xs) < length xs
  unfolding filter
  length-without a [] m = absurd (Memᴰ.not-nil m)
  length-without a (x ∷ xs) m = elim (Bool-cases (x == a)) [
    | inl y ↦ rw y (omega (arith, length-filter_le (λ x. not (x == a)) xs))
    | inr n ↦ rw n (elim (Memᴰ.cases_cons m) [
      | inl same ↦ let t = (e.beq_iff x a).1 (sym same) in absurd cc
      | inr k ↦ omega (arith, length-without a xs k)
    ])
  ]

  -- A list without repetition is no longer than a list that holds its members.
  pub length-NoDup_le :
      (xs ys : List A) → NoDup xs → ((x : A) → Memᴰ x xs → Memᴰ x ys) → length xs ≤ length ys
  length-NoDup_le [] ys d s = omega arith
  length-NoDup_le (x ∷ xs) ys d s = omega (
    arith,
    length-without x ys (s x (Memᴰ.head refl)),
    length-NoDup_le xs (without x ys) d.1
        (λ y m. (Memᴰ-filter (λ z. not (z == x)) y ys).1 (s y (Memᴰ.tail m), other y m)),
  )
    where
      other : (y : A) → Memᴰ y xs → not (y == x) ≡ true
      other y m = elim (Bool-cases (y == x)) [
        | inl same ↦ absurd (d.0 (Memᴰ.cast (sym ((e.beq_iff y x).0 same)) m))
        | inr n ↦ rw n refl
      ]

  -- If it is as long as that list, it has all of its members.
  pub NoDup_full :
      (xs ys : List A)
      → NoDup xs
      → ((x : A) → Memᴰ x xs → Memᴰ x ys)
      → length ys ≤ length xs
      → (y : A) → Memᴰ y ys
      → Memᴰ y xs
  NoDup_full xs ys d s l y m = elim (Bool-cases (has y xs)) [
    | inl t ↦ (has_iff y xs).0 t
    | inr f ↦ absurd (
        ground (
          arith,
          length-NoDup_le (y ∷ xs) ys (not-Memᴰ y xs f, d)
              (λ x k. elim (Memᴰ.cases_cons k) [ inl same ↦ Memᴰ.cast same m | inr r ↦ s x r ]),
        ))
  ]
