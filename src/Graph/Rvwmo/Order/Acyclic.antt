-- ===== src/Graph/Rvwmo/Order/Acyclic.antt =====
-- Orders that respect edges, and chains of edges (_topological_total_order,
-- src/umcm/graph/rvwmo.py).
use com_mcm.Prelude.{
  ◌≡◌, refl, sym, subst, ◌⊎◌, inl, inr, String, Bool, true, List, [], ◌∷◌, Memᴰ, Memᴰ-to_set, has,
  filter, Memᴰ-filter, to_set, text_eq_instance, pair_eq, nat_eq, Bool-cases, NoDup, has_iff,
  not-Memᴰ, add,
}
use mathlib.Core.List.Memᴰ
use com_mcm.Graph.Relation.{Edge}
use com_mcm.Graph.Relation.Closure.{Chain, edge, further}
use com_mcm.Graph.Cycle.Invariant.{Finishing, Finishing-closed}
use com_mcm.Graph.Rvwmo.Order.Loop.{Respects}

-- No node of such a list is reached from itself.
module _ (es : List Edge) where
  Chain-back :
      (seen : List String) (a b : String)
      → ((u x : String) → Memᴰ x seen → Memᴰ (u, x) es → Memᴰ u seen)
      → Memᴰ b seen
      → Chain es a b
      → Memᴰ a seen
  Chain-back seen a b c m (edge e) = c a b m e
  Chain-back seen a b c m (further {b = z} k e) = Chain-back seen a z c (c z b m e) k

  pub Respects-acyclic :
      (seen xs : List String)
      → Respects es seen xs
      → ((u x : String) → Memᴰ x seen → Memᴰ (u, x) es → Memᴰ u seen)
      → ((a : String) → Memᴰ a seen → ¬ Chain es a a)
      → (a : String) → Memᴰ a seen ⊎ Memᴰ a xs
      → ¬ Chain es a a
  Respects-acyclic seen [] r c n a (inl m) k = n a m k
  Respects-acyclic seen [] r c n a (inr m) k = absurd (Memᴰ.not-nil m)
  Respects-acyclic seen (x ∷ xs) r c n a m k =
      Respects-acyclic (x ∷ seen) xs r.1 closed clean a
        (elim m [
          | inl l ↦ inl (Memᴰ.tail l)
          | inr l ↦ elim (Memᴰ.cases_cons l) [ inl same ↦ inl (Memᴰ.head same) | inr w ↦ inr w ]
        ])
        k
    where
      closed : (u y : String) → Memᴰ y (x ∷ seen) → Memᴰ (u, y) es → Memᴰ u (x ∷ seen)
      closed u y l e = elim (Memᴰ.cases_cons l) [
        | inl same ↦ Memᴰ.tail (r.0 u (Memᴰ.cast (λ i. (u, sym same i)) e))
        | inr w ↦ Memᴰ.tail (c u y w e)
      ]

      self : ¬ Chain es x x
      self (edge e) = n x (r.0 x e) (edge e)
      self (further {b = z} d e) = n x (Chain-back seen x z c (r.0 z e) d) (further d e)

      clean : (b : String) → Memᴰ b (x ∷ seen) → ¬ Chain es b b
      clean b l d = elim (Memᴰ.cases_cons l) [
        | inl same ↦ self (subst (λ z. Chain es z z) same d)
        | inr w ↦ n b w d
      ]

  pub Finishing-to_set : (xs : List String) → Finishing es xs → Finishing es (to_set xs)
  unfolding to_set add
  Finishing-to_set [] f = tt
  Finishing-to_set (x ∷ xs) f = elim (Bool-cases (has x (to_set xs))) [
    | inl y ↦ rw y (Finishing-to_set xs f.1)
    | inr n ↦ rw n ((λ v e. (Memᴰ-to_set v xs).1 (f.0 v e)), Finishing-to_set xs f.1)
  ]

  pub Finishing-filter :
      (p : String → Bool) (xs : List String)
      → ((x v : String) → Memᴰ (x, v) es → p v ≡ true)
      → Finishing es xs
      → Finishing es (filter p xs)
  unfolding filter
  Finishing-filter p [] h f = tt
  Finishing-filter p (x ∷ xs) h f = elim (Bool-cases (p x)) [
    | inl y ↦ rw y ((λ v e. (Memᴰ-filter p v xs).1 (f.0 v e, h x v e)), Finishing-filter p xs h f.1)
    | inr n ↦ rw n (Finishing-filter p xs h f.1)
  ]

  -- If every node that is missing has a missing predecessor, no node is missing.
  pub none_missing :
      (order seen rest : List String)
      → NoDup rest
      → Finishing es rest
      → ((x : String) → Memᴰ x seen → Memᴰ x order)
      → ((x : String)
          → Memᴰ x rest
          → ¬ Memᴰ x order
          → (u : String) × Memᴰ (u, x) es × ¬ Memᴰ u order × (Memᴰ u seen ⊎ Memᴰ u rest))
      → (x : String) → Memᴰ x rest
      → Memᴰ x order
  none_missing order seen [] d f s p x m = absurd (Memᴰ.not-nil m)
  none_missing order seen (y ∷ ys) d f s p x m = elim (Memᴰ.cases_cons m) [
    | inl same ↦ Memᴰ.cast same placed
    | inr k ↦
        none_missing order (y ∷ seen) ys d.1 f.1
          (λ z l. elim (Memᴰ.cases_cons l) [ inl same ↦ Memᴰ.cast same placed | inr w ↦ s z w ])
          (λ z l n.
            let (u, e, a, b) = p z (Memᴰ.tail l) n in
            (
              u,
              e,
              a,
              elim b [
                | inl l ↦ inl (Memᴰ.tail l)
                | inr l ↦ elim (Memᴰ.cases_cons l) [
                  | inl same ↦ inl (Memᴰ.head same)
                  | inr w ↦ inr w
                ]
              ],
            ))
          x k
  ]
    where
      missing : ¬ Memᴰ y order → ⊥
      missing n =
          let (u, e, a, b) = p y (Memᴰ.head refl) n in
          elim b [
            | inl l ↦ a (s u l)
            | inr l ↦ elim (Memᴰ.cases_cons l) [
              | inl same ↦ d.0 (f.0 y (Memᴰ.cast (λ i. (sym same i, y)) e))
              | inr w ↦ d.0 (Finishing-closed es ys f.1 u y w e)
            ]
          ]

      placed : Memᴰ y order
      placed = elim (Bool-cases (has y order)) [
        | inl t ↦ (has_iff y order).0 t
        | inr n ↦ absurd (missing (not-Memᴰ y order n))
      ]
