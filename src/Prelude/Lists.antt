-- ===== src/Prelude/Lists.antt =====
-- Lists measured by native numbers, and the loops over lists that the program writes as
-- comprehensions, `any`, `all` and `sorted`.
use Prim.Native.Nat.{ℕ, zero, suc, ◌+◌}
use mathlib.Core.Path.{◌≡◌, refl, ap, sym, subst}
use mathlib.Core.Logic.{◌↔◌, ◌⊎◌, inl, inr, ⊎_elim}
use mathlib.Core.Bool.{Bool, true, false, ◌&&◌, ◌||◌}
use mathlib.Core.Option.{Option, none, some}
use mathlib.Core.List.{List, [], ◌∷◌, ◌++◌, map, Memᴰ}
use mathlib.Core.List.Memᴰ
use native.Mathlib.Omega.{arith}
use com_mcm.Prelude.Tests.{if◌then◌else◌, Bool-cases}

module _ {ℓ} {A : Type ℓ} where
  abbrev pub length : List A → ℕ
  length [] = 0
  length (x ∷ xs) = suc (length xs)

  abbrev pub get_elem? : List A → ℕ → Option A
  get_elem? [] i = none
  get_elem? (x ∷ xs) zero = some x
  get_elem? (x ∷ xs) (suc i) = get_elem? xs i

  abbrev pub drop : ℕ → List A → List A
  drop zero xs = xs
  drop (suc n) [] = []
  drop (suc n) (x ∷ xs) = drop n xs

  unfoldable pub filter : (A → Bool) → List A → List A
  filter p [] = []
  filter p (x ∷ xs) = if p x then x ∷ filter p xs else filter p xs

  unfoldable pub any : (A → Bool) → List A → Bool
  any p [] = false
  any p (x ∷ xs) = p x || any p xs

  unfoldable pub all : (A → Bool) → List A → Bool
  all p [] = true
  all p (x ∷ xs) = p x && all p xs

  unfoldable pub insert_sorted : (A → A → Bool) → A → List A → List A
  insert_sorted le x [] = x ∷ []
  insert_sorted le x (y ∷ ys) = if le x y then x ∷ (y ∷ ys) else y ∷ insert_sorted le x ys

  -- `sorted` by an order test.
  unfoldable pub sorted : (A → A → Bool) → List A → List A
  unfolding insert_sorted
  sorted le [] = []
  sorted le (x ∷ xs) = insert_sorted le x (sorted le xs)

module _ {ℓ} {A : Type ℓ} where
  pub Memᴰ-cons : (a x : A) (xs : List A) → Memᴰ a (x ∷ xs) ↔ ((a ≡ x) ⊎ Memᴰ a xs)
  Memᴰ-cons a x xs = (Memᴰ.cases_cons, ⊎_elim Memᴰ.head Memᴰ.tail)

  pub Memᴰ-append : (a : A) (xs ys : List A) → Memᴰ a (xs ++ ys) ↔ (Memᴰ a xs ⊎ Memᴰ a ys)
  Memᴰ-append a xs ys = (Memᴰ.append_cases xs, ⊎_elim (Memᴰ.append_left ys) (Memᴰ.append_right xs))

  pub Memᴰ-nil : (a : A) → Memᴰ a [] ↔ ⊥
  Memᴰ-nil a = (Memᴰ.not-nil, λ h. absurd h)

  pub length-append : (xs ys : List A) → length (xs ++ ys) ≡ length xs + length ys
  length-append [] ys = omega arith
  length-append (x ∷ xs) ys = omega (arith, length-append xs ys)

  pub Memᴰ-filter :
      (p : A → Bool) (a : A) (xs : List A) → Memᴰ a (filter p xs) ↔ (Memᴰ a xs × (p a ≡ true))
  unfolding filter
  Memᴰ-filter p a [] = (λ h. absurd (Memᴰ.not-nil h), λ h. h.0)
  Memᴰ-filter p a (x ∷ xs) = elim (Bool-cases (p x)) [
    | inl h ↦
        rw h
          (ground (arith, Memᴰ-cons a x xs, Memᴰ-cons a x (filter p xs), Memᴰ-filter p a xs, ap p))
    | inr h ↦ rw h (ground (arith, Memᴰ-cons a x xs, Memᴰ-filter p a xs))
  ]

  pub Memᴰ-insert_sorted :
      (le : A → A → Bool) (a x : A) (xs : List A)
      → Memᴰ a (insert_sorted le x xs) ↔ ((a ≡ x) ⊎ Memᴰ a xs)
  unfolding insert_sorted
  Memᴰ-insert_sorted le a x [] = Memᴰ-cons a x []
  Memᴰ-insert_sorted le a x (y ∷ ys) = elim (Bool-cases (le x y)) [
    | inl h ↦ rw h (Memᴰ-cons a x (y ∷ ys))
    | inr h ↦ rw h (
        ground (
          arith,
          Memᴰ-cons a y (insert_sorted le x ys),
          Memᴰ-cons a y ys,
          Memᴰ-insert_sorted le a x ys,
        ))
  ]

  -- `sorted` permutes: it keeps the members, whatever the order test is.
  pub Memᴰ-sorted : (le : A → A → Bool) (a : A) (xs : List A) → Memᴰ a (sorted le xs) ↔ Memᴰ a xs
  unfolding sorted
  Memᴰ-sorted le a [] = (λ h. h, λ h. h)
  Memᴰ-sorted le a (x ∷ xs) =
      ground
        (arith, Memᴰ-insert_sorted le a x (sorted le xs), Memᴰ-sorted le a xs, Memᴰ-cons a x xs)

  any_of_Memᴰ : (p : A → Bool) (a : A) (xs : List A) → Memᴰ a xs → p a ≡ true → any p xs ≡ true
  unfolding any
  any_of_Memᴰ p a [] m h = elim m [ ]
  any_of_Memᴰ p a (x ∷ xs) (Memᴰ.head e) h = ground (arith, ap p e)
  any_of_Memᴰ p a (x ∷ xs) (Memᴰ.tail m) h = ground (arith, any_of_Memᴰ p a xs m h)

  mem_of_any : (p : A → Bool) (xs : List A) → any p xs ≡ true → (x : A) × Memᴰ x xs × (p x ≡ true)
  unfolding any
  mem_of_any p [] h = cc
  mem_of_any p (x ∷ xs) h = elim (Bool-cases (p x)) [
    | inl e ↦ (x, Memᴰ.head refl, e)
    | inr e ↦ let (y, m, t) = mem_of_any p xs (ground arith) in (y, Memᴰ.tail m, t)
  ]

  -- `any` finds a member that passes the test.
  pub any_iff :
      (p : A → Bool) (xs : List A) → (any p xs ≡ true) ↔ ((x : A) × Memᴰ x xs × (p x ≡ true))
  any_iff p xs = (mem_of_any p xs, λ (x, m, t). any_of_Memᴰ p x xs m t)

  each_of_all : (p : A → Bool) (xs : List A) → all p xs ≡ true → (x : A) → Memᴰ x xs → p x ≡ true
  unfolding all
  each_of_all p [] h x m = elim m [ ]
  each_of_all p (y ∷ ys) h x (Memᴰ.head e) = ground (arith, ap p e)
  each_of_all p (y ∷ ys) h x (Memᴰ.tail m) = each_of_all p ys (ground arith) x m

  all_of_each : (p : A → Bool) (xs : List A) → ((x : A) → Memᴰ x xs → p x ≡ true) → all p xs ≡ true
  unfolding all
  all_of_each p [] h = refl
  all_of_each p (y ∷ ys) h =
      ground (arith, h y (Memᴰ.head refl), all_of_each p ys (λ x m. h x (Memᴰ.tail m)))

  -- `all` says that every member passes the test.
  pub all_iff :
      (p : A → Bool) (xs : List A) → (all p xs ≡ true) ↔ ((x : A) → Memᴰ x xs → p x ≡ true)
  all_iff p xs = (each_of_all p xs, all_of_each p xs)

module _ {ℓ κ} {A : Type ℓ} {B : Type κ} where
  unfoldable pub flat_map : (A → List B) → List A → List B
  flat_map f [] = []
  flat_map f (x ∷ xs) = f x ++ flat_map f xs

  pub Memᴰ-flat_map :
      (f : A → List B) (b : B) (xs : List A)
      → Memᴰ b (flat_map f xs) ↔ ((x : A) × Memᴰ x xs × Memᴰ b (f x))
  unfolding flat_map
  Memᴰ-flat_map f b [] = (λ h. absurd (Memᴰ.not-nil h), λ h. absurd (Memᴰ.not-nil h.1))
  Memᴰ-flat_map f b (x ∷ xs) = (
    λ h. elim (Memᴰ.append_cases (f x) h) [
      | inl m ↦ (x, Memᴰ.head refl, m)
      | inr m ↦ let (y, k, t) = (Memᴰ-flat_map f b xs).0 m in (y, Memᴰ.tail k, t)
    ],
    λ (y, k, t). elim (Memᴰ.cases_cons k) [
      | inl e ↦ Memᴰ.append_left (flat_map f xs) (subst (λ z. Memᴰ b (f z)) e t)
      | inr m ↦ Memᴰ.append_right (f x) ((Memᴰ-flat_map f b xs).1 (y, m, t))
    ],
  )

  pub Memᴰ-map :
      (f : A → B) (b : B) (xs : List A) → Memᴰ b (map f xs) ↔ ((x : A) × Memᴰ x xs × (f x ≡ b))
  Memᴰ-map f b xs = (Memᴰ.of_map f xs, λ (x, m, e). Memᴰ.cast (sym e) (Memᴰ.map f m))

  pub length-map : (f : A → B) (xs : List A) → length (map f xs) ≡ length xs
  length-map f [] = refl
  length-map f (x ∷ xs) = ap suc (length-map f xs)
