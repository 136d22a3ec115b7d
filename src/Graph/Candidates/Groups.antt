-- ===== src/Graph/Candidates/Groups.antt =====
-- The writes of one address (`writes_by_address` of build_candidate_space,
-- src/umcm/graph/builder.py).
use com_mcm.Prelude.{
  ◌≡◌, refl, sym, ap, ◌∙◌, subst, ◌⊎◌, inl, inr, true, false, List, [], ◌∷◌, ◌++◌, Memᴰ, filter,
  Memᴰ-filter, Bool-cases, if◌then◌else◌, text_eq_instance,
}
use mathlib.Core.List.Memᴰ
use com_mcm.Ir.Sort.{Value}
use com_mcm.Solver.Value.{py_eq}
use com_mcm.Solver.Equality.{canonical, py_eq_iff, py_eq_sym, py_eq_trans}
use com_mcm.Graph.Execution.{MemoryOperation}
use com_mcm.Graph.Candidates.{add_write, add_writes}

abbrev Groups : Type 0
Groups = List (Value × List MemoryOperation)

-- The addresses of the groups differ.
abbrev Apart : Groups → Type 0
Apart [] = Unit
Apart ((a, ws) ∷ rest) =
    ((b : Value) (vs : List MemoryOperation) → Memᴰ (b, vs) rest → ¬ (py_eq a b ≡ true))
    × Apart rest

-- What a group holds after one more write.
abbrev extended : MemoryOperation → Value → List MemoryOperation → List MemoryOperation
extended w a ws = if py_eq a w.address then ws ++ (w ∷ []) else ws

extended-other :
    (w : MemoryOperation) (a : Value) (ws : List MemoryOperation)
    → ¬ (py_eq a w.address ≡ true)
    → extended w a ws ≡ ws
extended-other w a ws n = elim (Bool-cases (py_eq a w.address)) [
  | inl t ↦ absurd (n t)
  | inr f ↦ rw f refl
]

-- A new group, where no group has the address.
abbrev IsNew : MemoryOperation → Groups → Value → List MemoryOperation → Type 0
IsNew w groups a vs =
    (a ≡ w.address)
    × (vs ≡ w ∷ [])
    × ((b : Value) (ws : List MemoryOperation) → Memᴰ (b, ws) groups → ¬ (py_eq b w.address ≡ true))

-- A group of the result is a group from before, extended, or a new group.
Memᴰ-add_write :
    (w : MemoryOperation) (groups : Groups)
    → Apart groups
    → (a : Value) (vs : List MemoryOperation) → Memᴰ (a, vs) (add_write w groups)
    → ((ws : List MemoryOperation) × Memᴰ (a, ws) groups × (vs ≡ extended w a ws))
      ⊎ IsNew w groups a vs
unfolding add_write
Memᴰ-add_write w [] apart a vs m = elim (Memᴰ.cases_cons m) [
  | inl e ↦ inr (ap (λ p. p.0) e, ap (λ p. p.1) e, λ b ws k. absurd (Memᴰ.not-nil k))
  | inr k ↦ absurd (Memᴰ.not-nil k)
]
Memᴰ-add_write w ((b, ws) ∷ rest) (differ, apart) a vs m = elim (Bool-cases (py_eq b w.address)) [
  | inl t ↦
      let n : Memᴰ (a, vs) ((b, ws ++ (w ∷ [])) ∷ rest) = rw t at m in
      elim (Memᴰ.cases_cons n) [
        | inl e ↦
            let q : py_eq a w.address ≡ true = ap (λ p. py_eq p.0 w.address) e ∙ t in
            inl (ws, Memᴰ.head (ap (λ p. (p.0, ws)) e), rw q (ap (λ p. p.1) e))
        | inr k ↦
            let n : ¬ (py_eq a w.address ≡ true) =
              λ h. differ a vs k (py_eq_trans b w.address a t (py_eq_sym a w.address h)) in
            inl (vs, Memᴰ.tail k, sym (extended-other w a vs n))
      ]
  | inr f ↦
      let n : Memᴰ (a, vs) ((b, ws) ∷ add_write w rest) = rw f at m in
      elim (Memᴰ.cases_cons n) [
        | inl e ↦
            let q : py_eq a w.address ≡ false = ap (λ p. py_eq p.0 w.address) e ∙ f in
            inl (ws, Memᴰ.head (ap (λ p. (p.0, ws)) e), rw q (ap (λ p. p.1) e))
        | inr k ↦ elim (Memᴰ-add_write w rest apart a vs k) [
          | inl (us, l, e) ↦ inl (us, Memᴰ.tail l, e)
          | inr (e, e', none_there) ↦ inr (
            e,
            e',
            λ c us l. elim (Memᴰ.cases_cons l) [
              | inl i ↦ λ h.
                  let q : py_eq b w.address ≡ true = sym (ap (λ p. py_eq p.0 w.address) i) ∙ h in cc
              | inr l' ↦ none_there c us l'
            ],
          )
        ]
      ]
]

Apart-add_write :
    (w : MemoryOperation) (groups : Groups) → Apart groups → Apart (add_write w groups)
unfolding add_write
Apart-add_write w [] apart = ((λ b vs m. absurd (Memᴰ.not-nil m)), tt)
Apart-add_write w ((a, ws) ∷ rest) (differ, apart) = elim (Bool-cases (py_eq a w.address)) [
  | inl t ↦ rw t (differ, apart)
  | inr f ↦ rw f (
    λ b vs m h. elim (Memᴰ-add_write w rest apart b vs m) [
      | inl (us, l, e) ↦ differ b us l h
      | inr (e, e', n) ↦ let q : py_eq a w.address ≡ true = ap (py_eq a) (sym e) ∙ h in absurd cc
    ],
    Apart-add_write w rest apart,
  )
]

-- The addresses are kept, and that of the write is there.
kept :
    (w : MemoryOperation) (groups : Groups) (a : Value) (ws : List MemoryOperation)
    → Memᴰ (a, ws) groups
    → (vs : List MemoryOperation) × Memᴰ (a, vs) (add_write w groups)
unfolding add_write
kept w [] a ws m = absurd (Memᴰ.not-nil m)
kept w ((b, us) ∷ rest) a ws m = elim (Bool-cases (py_eq b w.address)) [
  | inl t ↦ rw t (elim (Memᴰ.cases_cons m) [
    | inl e ↦ (us ++ (w ∷ []), Memᴰ.head (ap (λ p. (p.0, us ++ (w ∷ []))) e))
    | inr k ↦ (ws, Memᴰ.tail k)
  ])
  | inr f ↦ rw f (elim (Memᴰ.cases_cons m) [
    | inl e ↦ (us, Memᴰ.head (ap (λ p. (p.0, us)) e))
    | inr k ↦ let (vs, n) = kept w rest a ws k in (vs, Memᴰ.tail n)
  ])
]

added :
    (w : MemoryOperation) (groups : Groups)
    → (a : Value) × (vs : List MemoryOperation) × Memᴰ (a, vs) (add_write w groups)
      × (py_eq a w.address ≡ true)
unfolding add_write
added w [] = (w.address, w ∷ [], Memᴰ.head refl, (py_eq_iff w.address w.address).1 refl)
added w ((b, us) ∷ rest) = elim (Bool-cases (py_eq b w.address)) [
  | inl t ↦ rw t (b, us ++ (w ∷ []), Memᴰ.head refl, t)
  | inr f ↦ let (a, vs, m, e) = added w rest in rw f (a, vs, Memᴰ.tail m, e)
]

filter-concat :
    (a : Value) (ws : List MemoryOperation) (w : MemoryOperation)
    → filter (λ x. py_eq a x.address) (ws ++ (w ∷ []))
      ≡ extended w a (filter (λ x. py_eq a x.address) ws)
unfolding filter
filter-concat a [] w = refl
filter-concat a (x ∷ xs) w = elim (Bool-cases (py_eq a x.address)) [
  | inl t ↦
      rw (t, filter-concat a xs w)
        (elim (Bool-cases (py_eq a w.address)) [ inl u ↦ rw u refl | inr g ↦ rw g refl ])
  | inr f ↦ rw (f, filter-concat a xs w) refl
]

concat-append :
    (xs : List MemoryOperation) (w : MemoryOperation) (ws : List MemoryOperation)
    → (xs ++ (w ∷ [])) ++ ws ≡ xs ++ (w ∷ ws)
concat-append [] w ws = refl
concat-append (x ∷ xs) w ws = ap (λ zs. x ∷ zs) (concat-append xs w ws)

append-nil : (xs : List MemoryOperation) → xs ++ [] ≡ xs
append-nil [] = refl
append-nil (x ∷ xs) = ap (λ zs. x ∷ zs) (append-nil xs)

no_member : (xs : List MemoryOperation) → ((x : MemoryOperation) → ¬ Memᴰ x xs) → xs ≡ []
no_member [] n = refl
no_member (x ∷ xs) n = absurd (n x (Memᴰ.head refl))

-- Each write is in the group of its address, and each group holds the writes to its address in their
-- order.
pub record Grouped (writes : List MemoryOperation) (groups : List (Value × List MemoryOperation))
    : Type 0 where
  pub apart : Apart groups
  pub members :
      (a : Value) (ws : List MemoryOperation)
      → Memᴰ (a, ws) groups
      → ws ≡ filter (λ x. py_eq a x.address) writes
  pub covers :
      (w : MemoryOperation)
      → Memᴰ w writes
      → (a : Value) × (ws : List MemoryOperation) × Memᴰ (a, ws) groups × (py_eq a w.address ≡ true)

Grouped-add_write :
    (writes : List MemoryOperation) (groups : Groups) (w : MemoryOperation)
    → Grouped writes groups
    → Grouped (writes ++ (w ∷ [])) (add_write w groups)
Grouped-add_write writes groups w g = record {
  apart = Apart-add_write w groups g.apart;
  members = λ a vs m. elim (Memᴰ-add_write w groups g.apart a vs m) [
    | inl (ws, k, e) ↦ e ∙ ap (extended w a) (g.members a ws k) ∙ sym (filter-concat a writes w)
    | inr (e, e', n) ↦
        let t : py_eq a w.address ≡ true = (py_eq_iff a w.address).1 (ap canonical e) in
        let none_before : filter (λ x. py_eq a x.address) writes ≡ [] = no_member _ (λ x k.
          let (l, q) = (Memᴰ-filter _ x writes).0 k in
          let (b, ws, o, r) = g.covers x l in
          n b ws o (
            py_eq_trans b x.address w.address r
              (py_eq_trans x.address a w.address (py_eq_sym a x.address q) t))) in
        e' ∙ sym (filter-concat a writes w ∙ rw (none_before, t) refl)
  ];
  covers = λ x m. elim (Memᴰ.append_cases writes m) [
    | inl k ↦
        let (a, ws, l, t) = g.covers x k in let (vs, n) = kept w groups a ws l in (a, vs, n, t)
    | inr k ↦ elim (Memᴰ.cases_cons k) [
      | inl e ↦ let (a, vs, l, t) = added w groups in (a, vs, l, ap (λ z. py_eq a z.address) e ∙ t)
      | inr n ↦ absurd (Memᴰ.not-nil n)
    ]
  ];
}

Grouped-add_writes :
    (ws writes : List MemoryOperation) (groups : Groups)
    → Grouped writes groups
    → Grouped (writes ++ ws) (add_writes ws groups)
unfolding add_writes
Grouped-add_writes [] writes groups g = subst (λ z. Grouped z groups) (sym (append-nil writes)) g
Grouped-add_writes (w ∷ ws) writes groups g =
    subst (λ z. Grouped z (add_writes ws (add_write w groups))) (concat-append writes w ws)
      (Grouped-add_writes ws (writes ++ (w ∷ [])) (add_write w groups)
        (Grouped-add_write writes groups w g))

pub add_writes-Grouped : (ws : List MemoryOperation) → Grouped ws (add_writes ws [])
add_writes-Grouped ws = Grouped-add_writes ws [] [] (record {
  apart = tt;
  members = λ a vs m. absurd (Memᴰ.not-nil m);
  covers = λ w m. absurd (Memᴰ.not-nil m);
})
