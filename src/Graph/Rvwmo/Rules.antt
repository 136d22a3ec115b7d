-- ===== src/Graph/Rvwmo/Rules.antt =====
-- What preserved program order holds (derive_ppo, src/umcm/graph/rvwmo.py).
use com_mcm.Prelude.{
  ◌≡◌, refl, sym, ap, subst, ◌↔◌, inl, inr, String, Bool, true, List, [], ◌∷◌, Memᴰ, Memᴰ-filter,
  Memᴰ-map, Memᴰ-to_set, arith, ℕ, zero, suc, filter, to_set, pair_eq, text_eq_instance, ◌<◌, ◌+◌,
  length,
}
use mathlib.Core.List.Memᴰ
use com_mcm.Errors.{ok-injective_back, ok, guard, graph_error, ◌>>=◌, >>=-eq-ok}
use com_mcm.Graph.Relation.{Relation, Edge, from_edges, is_valid}
use com_mcm.Graph.Rvwmo.Validate.{Operations}
use com_mcm.Graph.Rvwmo.Ppo.{Inputs, rules_of, rules_of_all, bit, rule_edges, name_rules}

-- The edges of a relation that was made are those it was made from.
pub from_edges-eq-ok :
    (name : String) (edges : List Edge) (r : Relation)
    → from_edges name edges ≡ ok r
    → r ≡ record { name = name; edges = to_set edges }
unfolding from_edges
from_edges-eq-ok name edges r h =
    let (u, g, e) =
      >>=-eq-ok (guard (is_valid (record { name = name; edges = to_set edges })) graph_error)
        (λ done. ok (record { name = name; edges = to_set edges })) h in
    cc

pub made_iff :
    (name : String) (edges : List Edge) (r : Relation) (e : Edge)
    → from_edges name edges ≡ ok r
    → Memᴰ e r.edges ↔ Memᴰ e edges
made_iff name edges r e h =
    subst (λ s. Memᴰ e s.edges ↔ Memᴰ e edges) (sym (from_edges-eq-ok name edges r h))
      (Memᴰ-to_set e edges)

pub Memᴰ-rule_edges :
    (n : ℕ) (e : Edge) (items : List (Edge × List Bool))
    → Memᴰ e (rule_edges n items)
      ↔ ((bits : List Bool) × Memᴰ (e, bits) items × (bit n bits ≡ true))
unfolding rule_edges
Memᴰ-rule_edges n e items = (to, from)
  where
    test : Edge × List Bool → Bool
    test item = bit n item.1

    to :
        Memᴰ e (rule_edges n items)
        → (bits : List Bool) × Memᴰ (e, bits) items × (bit n bits ≡ true)
    to m =
        let ((f, bits), k, p) = (Memᴰ-map (λ item. item.0) e (filter test items)).0 m in
        let (l, t) = (Memᴰ-filter test (f, bits) items).0 k in
        (bits, subst (λ z. Memᴰ (z, bits) items) p l, t)

    from :
        (bits : List Bool) × Memᴰ (e, bits) items × (bit n bits ≡ true)
        → Memᴰ e (rule_edges n items)
    from (bits, l, t) =
        (Memᴰ-map (λ item. item.0) e (filter test items)).1
          ((e, bits), (Memᴰ-filter test (e, bits) items).1 (l, t), refl)

-- What a call of `name_rules` on a non-empty list of names returns.
name_rules-cons :
    (n : ℕ) (name : String) (names : List String) (items : List (Edge × List Bool))
    (rs : List Relation)
    → name_rules n (name ∷ names) items ≡ ok rs
    → (r : Relation) × (from_edges name (rule_edges n items) ≡ ok r)
      × (rest : List Relation) × (name_rules (suc n) names items ≡ ok rest)
      × (rs ≡ r ∷ rest)
unfolding name_rules
name_rules-cons n name names items rs h =
    let (r, p, q) =
      >>=-eq-ok (from_edges name (rule_edges n items))
        (λ r. name_rules (suc n) names items >>= λ rs. ok (r ∷ rs)) h in
    let (rest, p', q') = >>=-eq-ok (name_rules (suc n) names items) (λ rs. ok (r ∷ rs)) q in
    (r, p, rest, p', ok-injective_back q')

-- Every relation that `name_rules` makes holds edges of one rule.
pub name_rules-within :
    (n : ℕ) (names : List String) (items : List (Edge × List Bool)) (rs : List Relation)
    → name_rules n names items ≡ ok rs
    → (r : Relation) → Memᴰ r rs
    → (e : Edge) → Memᴰ e r.edges
    → (bits : List Bool) × Memᴰ (e, bits) items
unfolding name_rules
name_rules-within n [] items rs h r m e k =
    absurd (Memᴰ.not-nil (subst (λ z. Memᴰ r z) (ok-injective_back h) m))
name_rules-within n (name ∷ names) items rs h r m e k =
    let (s, p, rest, q, t) = name_rules-cons n name names items rs h in
    elim (Memᴰ.cases_cons (subst (λ z. Memᴰ r z) t m)) [
      | inl here ↦
          let (bits, l, b) =
            (Memᴰ-rule_edges n e items).0
              ((made_iff name (rule_edges n items) s e p).0 (subst (λ z. Memᴰ e z.edges) here k)) in
          (bits, l)
      | inr there ↦ name_rules-within (suc n) names items rest q r there e k
    ]

-- The rule at place `k` is in the relation that the name at place `k` is given to.
pub name_rules-holds :
    (k n : ℕ) (names : List String) (items : List (Edge × List Bool)) (rs : List Relation)
    → name_rules n names items ≡ ok rs
    → k < length names
    → (e : Edge) → Memᴰ e (rule_edges (n + k) items)
    → (r : Relation) × Memᴰ r rs × Memᴰ e r.edges
name_rules-holds k n [] items rs h l e m = absurd (omega (arith, l))
name_rules-holds zero n (name ∷ names) items rs h l e m =
    let (s, p, rest, q, t) = name_rules-cons n name names items rs h in
    (
      s,
      subst (λ z. Memᴰ s z) (sym t) (Memᴰ.head refl),
      (made_iff name (rule_edges n items) s e p).1
          (subst (λ z. Memᴰ e (rule_edges z items)) (omega arith) m),
    )
name_rules-holds (suc k) n (name ∷ names) items rs h l e m =
    let (s, p, rest, q, t) = name_rules-cons n name names items rs h in
    let (r, here, there) =
      name_rules-holds k (suc n) names items rest q (omega (arith, l)) e
        (subst (λ z. Memᴰ e (rule_edges z items)) (omega arith) m) in
    (r, subst (λ z. Memᴰ r z) (sym t) (Memᴰ.tail here), there)

module _ (operations : Operations) (inputs : Inputs) (sources : List (String × String)) where
  rules_of_all-cons :
      (f : Edge) (edges : List Edge) (items : List (Edge × List Bool))
      → rules_of_all operations inputs sources (f ∷ edges) ≡ ok items
      → (bits : List Bool) × (rules_of operations inputs sources f ≡ ok bits)
        × (rest : List (Edge × List Bool)) × (rules_of_all operations inputs sources edges
            ≡ ok rest)
        × (items ≡ (f, bits) ∷ rest)
  unfolding rules_of_all
  rules_of_all-cons f edges items h =
      let (bits, p, q) =
        >>=-eq-ok (rules_of operations inputs sources f)
          (λ bits. rules_of_all operations inputs sources edges >>= λ rest. ok ((f, bits) ∷ rest))
          h in
      let (rest, p', q') =
        >>=-eq-ok (rules_of_all operations inputs sources edges) (λ rest. ok ((f, bits) ∷ rest))
          q in
      (bits, p, rest, p', ok-injective_back q')

  pub rules_of_all-within :
      (edges : List Edge) (items : List (Edge × List Bool))
      → rules_of_all operations inputs sources edges ≡ ok items
      → (e : Edge) (bits : List Bool) → Memᴰ (e, bits) items
      → Memᴰ e edges
  unfolding rules_of_all
  rules_of_all-within [] items h e bits m =
      absurd (Memᴰ.not-nil (subst (λ z. Memᴰ (e, bits) z) (ok-injective_back h) m))
  rules_of_all-within (f ∷ edges) items h e bits m =
      let (bits', p, rest, q, t) = rules_of_all-cons f edges items h in
      elim (Memᴰ.cases_cons (subst (λ z. Memᴰ (e, bits) z) t m)) [
        | inl here ↦ Memᴰ.head (ap (λ z. z.0) here)
        | inr there ↦ Memᴰ.tail (rules_of_all-within edges rest q e bits there)
      ]

  pub rules_of_all-holds :
      (edges : List Edge) (items : List (Edge × List Bool))
      → rules_of_all operations inputs sources edges ≡ ok items
      → (e : Edge) → Memᴰ e edges
      → (bits : List Bool) × Memᴰ (e, bits) items × (rules_of operations inputs sources e ≡ ok bits)
  rules_of_all-holds [] items h e m = absurd (Memᴰ.not-nil m)
  rules_of_all-holds (f ∷ edges) items h e m =
      let (bits, p, rest, q, t) = rules_of_all-cons f edges items h in
      elim (Memᴰ.cases_cons m) [
        | inl here ↦ (
          bits,
          subst (λ z. Memᴰ (e, bits) z) (sym t) (Memᴰ.head (ap (λ z. (z, bits)) here)),
          subst (λ z. rules_of operations inputs sources z ≡ ok bits) (sym here) p,
        )
        | inr there ↦
            let (bits', k, r) = rules_of_all-holds edges rest q e there in
            (bits', subst (λ z. Memᴰ (e, bits') z) (sym t) (Memᴰ.tail k), r)
      ]
