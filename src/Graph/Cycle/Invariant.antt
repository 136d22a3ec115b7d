-- ===== src/Graph/Cycle/Invariant.antt =====
-- What the search keeps, and what a cycle is (find_labeled_cycle, src/umcm/graph/relation.py).
use com_mcm.Prelude.{
  ◌≡◌, refl, sym, ◌∙◌, ◌↔◌, ◌⊎◌, inl, inr, String, Bool, true, false, some, List, [], ◌∷◌, ◌++◌,
  Memᴰ, arith, text_eq_instance, pair_eq, ◌≢◌, ℕ, zero, suc, ◌+◌, ◌≤◌, drop, get_elem?,
  if◌then◌else◌,
}
use mathlib.Core.List.Memᴰ
use com_mcm.Graph.Relation.{Edge, Relation}
use com_mcm.Graph.Relation.Closure.{Chain, edge, further}
use com_mcm.Graph.Cycle.{LabeledEdge, Color, white, gray, black, State}

-- `name` is the name of the first of the relations that hold the edge.
pub data FirstHolder (e : Edge) (name : String) : List Relation → Type 0 where
  this :
      {r : Relation} {rs : List Relation}
      → Memᴰ e r.edges
      → r.name ≡ name
      → FirstHolder e name (r ∷ rs)
  later :
      {r : Relation} {rs : List Relation}
      → ¬ Memᴰ e r.edges
      → FirstHolder e name rs
      → FirstHolder e name (r ∷ rs)

module _ (relations : List Relation) where
  -- The labelled edges lead from `a` to `b`, each labelled by the first relation that holds it.
  abbrev pub Trail : String → String → List LabeledEdge → Type 0
  Trail a b [] = a ≡ b
  Trail a b (e ∷ es) =
      (e.source ≡ a) × FirstHolder (e.source, e.target) e.relation relations × Trail e.target b es

  abbrev pub IsCycle : List LabeledEdge → Type 0
  IsCycle es = (es ≢ []) × ((a : String) × Trail a a es)

module _ (edges : List Edge) where
  -- Each node of the list is followed by the target of one of its edges.
  abbrev pub Linked : List String → Type 0
  Linked [] = Unit
  Linked (a ∷ []) = Unit
  Linked (a ∷ (b ∷ rest)) = Memᴰ (a, b) edges × Linked (b ∷ rest)

  pub Linked-concat :
      (xs : List String) (a b : String)
      → Linked (xs ++ (a ∷ []))
      → Memᴰ (a, b) edges
      → Linked ((xs ++ (a ∷ [])) ++ (b ∷ []))
  Linked-concat [] a b h m = (m, tt)
  Linked-concat (x ∷ []) a b h m = (h.0, (m, tt))
  Linked-concat (x ∷ (y ∷ ys)) a b h m = (h.0, Linked-concat (y ∷ ys) a b h.1 m)

  Linked-tail : (x : String) (xs : List String) → Linked (x ∷ xs) → Linked xs
  Linked-tail x [] h = tt
  Linked-tail x (y ∷ ys) h = h.1

  pub Linked-drop : (n : ℕ) (xs : List String) → Linked xs → Linked (drop n xs)
  Linked-drop zero xs h = h
  Linked-drop (suc n) [] h = tt
  Linked-drop (suc n) (x ∷ xs) h = Linked-drop n xs (Linked-tail x xs h)

  -- The order of finishing: the successors of a node finished before it.
  abbrev pub Finishing : List String → Type 0
  Finishing [] = Unit
  Finishing (x ∷ xs) = ((v : String) → Memᴰ (x, v) edges → Memᴰ v xs) × Finishing xs

  pub Finishing-closed :
      (xs : List String) → Finishing xs → (u v : String) → Memᴰ u xs → Memᴰ (u, v) edges → Memᴰ v xs
  Finishing-closed [] f u v m e = absurd (Memᴰ.not-nil m)
  Finishing-closed (x ∷ xs) f u v m e = elim (Memᴰ.cases_cons m) [
    | inl p ↦ Memᴰ.tail (f.0 v (Memᴰ.cast (λ i. (sym p i, v)) e))
    | inr k ↦ Memᴰ.tail (Finishing-closed xs f.1 u v k e)
  ]

  Chain-stays :
      (xs : List String) → Finishing xs → (u v : String) → Memᴰ u xs → Chain edges u v → Memᴰ v xs
  Chain-stays xs f u v m (edge e) = Finishing-closed xs f u v m e
  Chain-stays xs f u v m (further {b} c e) = Finishing-closed xs f b v (Chain-stays xs f u b m c) e

  pub Chain-cons : {a b c : String} → Memᴰ (a, b) edges → Chain edges b c → Chain edges a c
  Chain-cons e (edge d) = further (edge e) d
  Chain-cons e (further c d) = further (Chain-cons e c) d

  Chain-first :
      {a c : String}
      → Chain edges a c
      → (b : String) × Memᴰ (a, b) edges × ((b ≡ c) ⊎ Chain edges b c)
  Chain-first (edge {b} e) = (b, e, inl refl)
  Chain-first (further {c = d} c e) =
      let (b, m, r) = Chain-first c in
      (b, m, inr (elim r [ inl q ↦ edge (Memᴰ.cast (λ i. (q i, d)) e) | inr k ↦ further k e ]))

  -- No chain returns to a node that finished.
  pub Finishing-acyclic :
      (xs : List String) → Finishing xs → (a : String) → Memᴰ a xs → ¬ Chain edges a a
  Finishing-acyclic [] f a m c = absurd (Memᴰ.not-nil m)
  Finishing-acyclic (x ∷ xs) f a m c = Finishing-acyclic xs f.1 a inside c
    where
      below : (b : String) → Memᴰ b xs → (b ≡ a) ⊎ Chain edges b a → Memᴰ a xs
      below b k (inl q) = Memᴰ.cast (sym q) k
      below b k (inr d) = Chain-stays xs f.1 b a k d

      inside : Memᴰ a xs
      inside = elim (Memᴰ.cases_cons m) [
        | inl p ↦
            let (b, e, r) = Chain-first c in below b (f.0 b (Memᴰ.cast (λ i. (sym p i, b)) e)) r
        | inr k ↦ k
      ]

  -- The state between two steps, with the nodes in the order in which they finished.
  pub record Inv (s : State) (order : List String) : Type 0 where
    pub done : (x : String) → (s.color x ≡ black) ↔ Memᴰ x order
    pub ordered : Finishing order
    pub placed :
        (x : String)
        → s.color x ≡ gray
        → (i : ℕ) × (s.position x ≡ some i) × (get_elem? s.stack i ≡ some x)
    pub linked : Linked s.stack

-- What a search that returns no cycle leaves as it was.
pub record Keeps (s t : State) : Type 0 where
  pub stack : t.stack ≡ s.stack
  pub blacks : (x : String) → s.color x ≡ black → t.color x ≡ black
  pub grays : (x : String) → s.color x ≡ gray → t.color x ≡ gray
  pub no_grays : (x : String) → t.color x ≡ gray → s.color x ≡ gray

pub Keeps-refl : (s : State) → Keeps s s
Keeps-refl s = record { stack = refl; blacks = λ x h. h; grays = λ x h. h; no_grays = λ x h. h }

pub Keeps-trans : (s t u : State) → Keeps s t → Keeps t u → Keeps s u
Keeps-trans s t u p q = record {
  stack = q.stack ∙ p.stack;
  blacks = λ x h. q.blacks x (p.blacks x h);
  grays = λ x h. q.grays x (p.grays x h);
  no_grays = λ x h. p.no_grays x (q.no_grays x h);
}

unfoldable pub is_white : Color → Bool
is_white white = true
is_white _ = false

-- The nodes that are not visited.
unfoldable pub whites : State → List String → ℕ
unfolding is_white
whites s [] = 0
whites s (x ∷ xs) = (if is_white (s.color x) then 1 else 0) + whites s xs

pub Keeps-whites : (s t : State) (xs : List String) → Keeps s t → whites t xs ≤ whites s xs
unfolding whites
Keeps-whites s t [] k = omega arith
Keeps-whites s t (x ∷ xs) k = ground (arith, Keeps-whites s t xs k, k.blacks x, k.grays x)
