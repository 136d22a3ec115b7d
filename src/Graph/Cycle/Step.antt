-- ===== src/Graph/Cycle/Step.antt =====
-- One call of `dfs` (find_labeled_cycle, src/umcm/graph/relation.py): entering a node, leaving it,
-- and the induction over the depth.
use com_mcm.Prelude.{
  ◌≡◌, refl, sym, ◌∙◌, ap, ◌↔◌, ◌⊎◌, inl, inr, String, true, false, some, List, [], ◌∷◌, ◌++◌, Memᴰ,
  Memᴰ-sorted, Memᴰ-to_set, Memᴰ-flat_map, arith, ◌==◌, text_eq_instance, Bool-cases, ◌≢◌, ℕ, zero,
  suc, ◌≤◌, length, subst, get_elem?, text_leb, beq_refl,
}
use mathlib.Core.List.Memᴰ
use com_mcm.Graph.Relation.{Edge, Relation, endpoints}
use com_mcm.Graph.Relation.Algebra.{Memᴰ-successors}
use com_mcm.Graph.Cycle.{
  white, gray, black, State, all_edges, nodes, targets, scan, enter, leave, dfs, pop, finished,
}
use com_mcm.Graph.Cycle.Invariant.{Linked, Linked-concat, Inv, Keeps, whites}
use com_mcm.Graph.Cycle.Search.{
  Fits, Searches, Ensures-bind, After, AllBlack, scan_lem, pop-concat, get_elem?-append,
  get_elem?-length,
}

get_elem?-concat {ℓ} :
    {A : Type ℓ} (xs : List A) (a x : A) (i : ℕ)
    → get_elem? (xs ++ (a ∷ [])) i ≡ some x
    → a ≢ x
    → get_elem? xs i ≡ some x
get_elem?-concat [] a x zero h n = absurd (n (ground arith))
get_elem?-concat [] a x (suc i) h n = cc
get_elem?-concat (y ∷ ys) a x zero h n = h
get_elem?-concat (y ∷ ys) a x (suc i) h n = get_elem?-concat ys a x i h n

-- `x == node`, with the equation or its negation.
same : (x node : String) → ((x == node) ≡ true) × (x ≡ node) ⊎ ((x == node) ≡ false) × (x ≢ node)
same x node = elim (Bool-cases (x == node)) [
  | inl h ↦ inl (h, (text_eq_instance.beq_iff x node).0 h)
  | inr h ↦ inr (h, λ e. ground (arith, (text_eq_instance.beq_iff x node).1 e))
]

whites-enter-le :
    (node : String) (s : State) (xs : List String) → whites (enter node s) xs ≤ whites s xs
unfolding whites
whites-enter-le node s [] = omega arith
whites-enter-le node s (x ∷ xs) = ground (arith, whites-enter-le node s xs)

whites-enter :
    (node : String) (s : State) (xs : List String)
    → s.color node ≡ white
    → Memᴰ node xs
    → suc (whites (enter node s) xs) ≤ whites s xs
unfolding whites
whites-enter node s [] w m = elim m [ ]
whites-enter node s (x ∷ xs) w (Memᴰ.head e) = ground (
  arith,
  whites-enter-le node s xs,
  (text_eq_instance.beq_iff x node).1 (sym e),
  ap (λ y. s.color y) e,
)
whites-enter node s (x ∷ xs) w (Memᴰ.tail m) = ground (arith, whites-enter node s xs w m)

module _ (relations : List Relation) where
  Memᴰ-targets :
      (node t : String) → Memᴰ t (targets relations node) ↔ Memᴰ (node, t) (all_edges relations)
  unfolding targets
  Memᴰ-targets node t = (
    λ m.
        (Memᴰ-successors (all_edges relations) node t).0
          ((Memᴰ-to_set t _).0 ((Memᴰ-sorted text_leb t _).0 m)),
    λ m.
        (Memᴰ-sorted text_leb t _).1
          ((Memᴰ-to_set t _).1 ((Memᴰ-successors (all_edges relations) node t).1 m)),
  )

  pub Memᴰ-nodes :
      (a b : String)
      → Memᴰ (a, b) (all_edges relations)
      → Memᴰ a (nodes relations) × Memᴰ b (nodes relations)
  unfolding endpoints
  Memᴰ-nodes a b m = (
    (Memᴰ-sorted text_leb a _).1 (
        (Memᴰ-to_set a _).1
          ((Memᴰ-flat_map ends a (all_edges relations)).1 ((a, b), m, Memᴰ.head refl))),
    (Memᴰ-sorted text_leb b _).1 (
        (Memᴰ-to_set b _).1
          ((Memᴰ-flat_map ends b (all_edges relations)).1 ((a, b), m, Memᴰ.tail (Memᴰ.head refl)))),
  )
    where
      ends : Edge → List String
      ends (s, t) = s ∷ t ∷ []

  module _ (node : String) (s : State) (order : List String)
      (inv : Inv (all_edges relations) s order) (fresh : s.color node ≡ white)
      (fits : Fits relations s node) where
    not_done : (x : String) → Memᴰ x order → x ≢ node
    not_done x m e = ground (arith, (inv.done x).1 m, ap (λ y. s.color y) e)

    Linked-push : Linked (all_edges relations) (s.stack ++ (node ∷ []))
    Linked-push = elim fits [
      | inl e ↦
          subst (λ (l : List String). Linked (all_edges relations) (l ++ (node ∷ []))) (sym e) tt
      | inr (base, top, e, m) ↦
          subst (λ (l : List String). Linked (all_edges relations) (l ++ (node ∷ []))) (sym e)
            (Linked-concat (all_edges relations) base top node
              (subst (Linked (all_edges relations)) e inv.linked) m)
    ]

    enter-Inv : Inv (all_edges relations) (enter node s) order
    enter-Inv = record {
      done = λ x. elim (same x node) [
        | inl (b, e) ↦ rw b (λ h. cc, λ m. absurd (not_done x m e))
        | inr (b, n) ↦ rw b (inv.done x)
      ];
      ordered = inv.ordered;
      placed = λ x h. elim (same x node) [
        | inl (b, e) ↦ rw b (
          length s.stack,
          refl,
          subst (λ (y : String). get_elem? (s.stack ++ (node ∷ [])) (length s.stack) ≡ some y)
              (sym e) (get_elem?-length s.stack node),
        )
        | inr (b, n) ↦
            let (i, p, q) = inv.placed x (rw b at h) in
            rw b (i, p, get_elem?-append s.stack (node ∷ []) i x q)
      ];
      linked = Linked-push;
    }

    module _ (t : State)
        (a : After relations (AllBlack relations (targets relations node)) (enter node s) t) where
      popped : pop t.stack ≡ s.stack
      popped = ap pop a.keeps.stack ∙ pop-concat s.stack node

      leave-Inv : Inv (all_edges relations) (leave node t) (node ∷ a.order)
      leave-Inv = record {
        done = λ x. elim (same x node) [
          | inl (b, e) ↦ rw b (λ h. Memᴰ.head e, λ m. refl)
          | inr (b, n) ↦ rw b (
            λ h. Memᴰ.tail ((a.inv.done x).0 h),
            λ m. elim (Memᴰ.cases_cons m) [ inl e ↦ absurd (n e) | inr k ↦ (a.inv.done x).1 k ],
          )
        ];
        ordered = (λ v e. (a.inv.done v).0 (a.fact v ((Memᴰ-targets node v).1 e)), a.inv.ordered);
        placed = λ x h. elim (same x node) [
          | inl (b, e) ↦ let f : black ≡ gray = rw b at h in cc
          | inr (b, n) ↦
              let (i, p, q) = a.inv.placed x (rw b at h) in
              rw b (
                i,
                p,
                subst (λ (l : List String). get_elem? l i ≡ some x) (sym popped)
                    (get_elem?-concat s.stack node x i (rw a.keeps.stack at q) (λ e. n (sym e))),
              )
        ];
        linked = subst (Linked (all_edges relations)) (sym popped) inv.linked;
      }

      leave-Keeps : Keeps s (leave node t)
      leave-Keeps = record {
        stack = popped;
        blacks = λ x h. elim (same x node) [
          | inl (b, e) ↦ rw b refl
          | inr (b, n) ↦ rw b (a.keeps.blacks x (rw b h))
        ];
        grays = λ x h. elim (same x node) [
          | inl (b, e) ↦ ground (arith, ap (λ y. s.color y) e)
          | inr (b, n) ↦ rw b (a.keeps.grays x (rw b h))
        ];
        no_grays = λ x h. elim (same x node) [
          | inl (b, e) ↦ let f : black ≡ gray = rw b at h in cc
          | inr (b, n) ↦
              let g : (enter node s).color x ≡ gray = a.keeps.no_grays x (rw b at h) in rw b at g
        ];
      }

      leave-After : After relations (λ u. u.color node ≡ black) s (leave node t)
      leave-After = record {
        order = node ∷ a.order;
        inv = leave-Inv;
        keeps = leave-Keeps;
        fact = rw (beq_refl node) refl;
      }

  -- With a level of depth for each white node `dfs` finds a cycle or blackens its node.
  pub dfs_lem : (depth : ℕ) → Searches relations (dfs relations depth) (nodes relations) depth
  unfolding dfs
  dfs_lem zero node s order inv fresh fits m w =
      absurd (omega (arith, whites-enter node s (nodes relations) fresh m))
  dfs_lem (suc depth) node s order inv fresh fits m w =
      Ensures-bind relations
        (After relations (AllBlack relations (targets relations node)) (enter node s))
        (After relations (λ u. u.color node ≡ black) s)
        (scan relations (dfs relations depth) (targets relations node) (enter node s))
        (λ t. finished (leave node t))
        (scan_lem relations (dfs relations depth) (nodes relations) depth (dfs_lem depth) s.stack
          node (targets relations node) (enter node s) order (enter-Inv node s order inv fresh fits)
          refl (λ t k. let e = (Memᴰ-targets node t).0 k in (e, (Memᴰ-nodes node t e).1))
          (omega (arith, whites-enter node s (nodes relations) fresh m)))
        (λ t a. leave-After node s order inv fresh fits t a)
