-- ===== src/Graph/Candidates/Permutations.antt =====
-- What itertools.permutations yields, as src/umcm/graph/builder.py uses it.
use com_mcm.Prelude.{
  ◌≡◌, refl, sym, ap, subst, ◌↔◌, ◌⊎◌, inl, inr, ⊎_elim, List, [], ◌∷◌, Memᴰ, Memᴰ-map,
  Memᴰ-flat_map, map, ℕ, zero, suc, length, NoDup, arith,
}
use mathlib.Core.List.Memᴰ
use com_mcm.Graph.Candidates.{picks, orders_of, permutations}

module _ {ℓ} {A : Type ℓ} where
  -- A member and the others.
  pub record IsPick (xs : List A) (y : A) (ys : List A) : Type ℓ where
    pub count : length xs ≡ suc (length ys)
    pub to : (z : A) → Memᴰ z xs → (z ≡ y) ⊎ Memᴰ z ys
    pub from : (z : A) → (z ≡ y) ⊎ Memᴰ z ys → Memᴰ z xs
    pub once : NoDup xs → NoDup (y ∷ ys)

  IsPick-head : (x : A) (xs : List A) → IsPick (x ∷ xs) x xs
  IsPick-head x xs = record {
    count = refl;
    to = λ z. Memᴰ.cases_cons;
    from = λ z. ⊎_elim Memᴰ.head Memᴰ.tail;
    once = λ d. d;
  }

  IsPick-tail :
      (x : A) (xs : List A) (y : A) (ys : List A) → IsPick xs y ys → IsPick (x ∷ xs) y (x ∷ ys)
  IsPick-tail x xs y ys p = record {
    count = ap suc p.count;
    to = λ z m. elim (Memᴰ.cases_cons m) [
      | inl e ↦ inr (Memᴰ.head e)
      | inr k ↦ elim (p.to z k) [ inl e ↦ inl e | inr n ↦ inr (Memᴰ.tail n) ]
    ];
    from = λ z c. elim c [
      | inl e ↦ Memᴰ.tail (p.from z (inl e))
      | inr m ↦ elim (Memᴰ.cases_cons m) [
        | inl e ↦ Memᴰ.head e
        | inr k ↦ Memᴰ.tail (p.from z (inr k))
      ]
    ];
    once = λ d. (
      λ m. elim (Memᴰ.cases_cons m) [
        | inl e ↦ d.0 (p.from x (inl (sym e)))
        | inr k ↦ (p.once d.1).0 k
      ],
      (λ m. d.0 (p.from x (inr m)), (p.once d.1).1),
    );
  }

  IsPick-picks : (xs : List A) (y : A) (ys : List A) → Memᴰ (y, ys) (picks xs) → IsPick xs y ys
  unfolding picks
  IsPick-picks [] y ys m = absurd (Memᴰ.not-nil m)
  IsPick-picks (x ∷ xs) y ys m = elim (Memᴰ.cases_cons m) [
    | inl e ↦ subst (λ p. IsPick (x ∷ xs) p.0 p.1) (sym e) (IsPick-head x xs)
    | inr k ↦
        let ((z, zs), n, e) = (Memᴰ-map _ _ _).0 k in
        subst (λ p. IsPick (x ∷ xs) p.0 p.1) e (IsPick-tail x xs z zs (IsPick-picks xs z zs n))
  ]

  picks-all : (xs : List A) (y : A) → Memᴰ y xs → (ys : List A) × Memᴰ (y, ys) (picks xs)
  unfolding picks
  picks-all [] y m = absurd (Memᴰ.not-nil m)
  picks-all (x ∷ xs) y m = elim (Memᴰ.cases_cons m) [
    | inl e ↦ (xs, Memᴰ.head (ap (λ z. (z, xs)) e))
    | inr k ↦
        let (ys, n) = picks-all xs y k in
        (x ∷ ys, Memᴰ.tail ((Memᴰ-map _ _ _).1 ((y, ys), n, refl)))
  ]

  -- Each member once, and nothing else.
  abbrev pub Reorders : List A → List A → Type ℓ
  Reorders xs zs = NoDup zs × ((a : A) → Memᴰ a zs ↔ Memᴰ a xs)

  orders_of_sound :
      (n : ℕ) (xs : List A)
      → length xs ≡ n
      → NoDup xs
      → (zs : List A) → Memᴰ zs (orders_of n xs)
      → Reorders xs zs
  unfolding orders_of
  orders_of_sound zero [] l d zs m = elim (Memᴰ.cases_cons m) [
    | inl e ↦ subst (Reorders []) (sym e) (tt, λ a. (λ k. k, λ k. k))
    | inr k ↦ absurd (Memᴰ.not-nil k)
  ]
  orders_of_sound zero (x ∷ xs) l d zs m = absurd (omega (arith, l))
  orders_of_sound (suc n) xs l d zs m =
      let ((y, ys), k, m₁) = (Memᴰ-flat_map _ zs (picks xs)).0 m in
      let (rest, r, e) = (Memᴰ-map _ _ _).0 m₁ in
      let p = IsPick-picks xs y ys k in
      let (once, same) = orders_of_sound n ys (omega (arith, l, p.count)) (p.once d).1 rest r in
      subst (Reorders xs) e (
        (λ t. (p.once d).0 ((same y).0 t), once),
        λ a. (
          λ t. p.from a (elim (Memᴰ.cases_cons t) [ inl h ↦ inl h | inr h ↦ inr ((same a).0 h) ]),
          λ t. elim (p.to a t) [ inl h ↦ Memᴰ.head h | inr h ↦ Memᴰ.tail ((same a).1 h) ],
        ),
      )

  orders_of-complete :
      (n : ℕ) (xs : List A)
      → length xs ≡ n
      → NoDup xs
      → (zs : List A) → Reorders xs zs
      → Memᴰ zs (orders_of n xs)
  unfolding orders_of
  orders_of-complete zero [] l d [] r = Memᴰ.head refl
  orders_of-complete zero [] l d (z ∷ zs) r = absurd (Memᴰ.not-nil ((r.1 z).0 (Memᴰ.head refl)))
  orders_of-complete zero (x ∷ xs) l d zs r = absurd (omega (arith, l))
  orders_of-complete (suc n) [] l d zs r = absurd (omega (arith, l))
  orders_of-complete (suc n) (x ∷ xs) l d [] r = absurd (Memᴰ.not-nil ((r.1 x).1 (Memᴰ.head refl)))
  orders_of-complete (suc n) (x ∷ xs) l d (z ∷ zs) r =
      let (ys, k) = picks-all (x ∷ xs) z ((r.1 z).0 (Memᴰ.head refl)) in
      let p = IsPick-picks (x ∷ xs) z ys k in
      let within : (a : A) → Memᴰ a zs → Memᴰ a ys = λ a t.
        elim (p.to a ((r.1 a).0 (Memᴰ.tail t))) [
          | inl e ↦ absurd (r.0.0 (Memᴰ.cast (sym e) t))
          | inr h ↦ h
        ] in
      let back : (a : A) → Memᴰ a ys → Memᴰ a zs = λ a t.
        elim (Memᴰ.cases_cons ((r.1 a).1 (p.from a (inr t)))) [
          | inl e ↦ absurd ((p.once d).0 (Memᴰ.cast (sym e) t))
          | inr h ↦ h
        ] in
      let m =
        orders_of-complete n ys (omega (arith, l, p.count)) (p.once d).1 zs
          (r.0.1, λ a. (within a, back a)) in
      (Memᴰ-flat_map (λ (y, ys). map (λ zs. y ∷ zs) (orders_of n ys)) (z ∷ zs) (picks (x ∷ xs))).1
        ((z, ys), k, (Memᴰ-map (λ zs. z ∷ zs) (z ∷ zs) (orders_of n ys)).1 (zs, m, refl))

  -- The permutations of a list without repetition are its reorderings.
  pub permutations_iff :
      (xs : List A) → NoDup xs → (zs : List A) → Memᴰ zs (permutations xs) ↔ Reorders xs zs
  unfolding permutations
  permutations_iff xs d zs =
      (orders_of_sound (length xs) xs refl d zs, orders_of-complete (length xs) xs refl d zs)
