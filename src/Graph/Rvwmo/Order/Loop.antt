-- ===== src/Graph/Rvwmo/Order/Loop.antt =====
-- The invariant of the loop `while ready` (_topological_total_order, src/umcm/graph/rvwmo.py).
use com_mcm.Prelude.{
  ◌≡◌, ◌≢◌, refl, sym, ◌∙◌, ap, ◌↔◌, ◌⊎◌, inl, inr, String, Bool, true, false, not, ◌&&◌, ◌||◌,
  List, [], ◌∷◌, ◌++◌, Memᴰ, filter, has, length, ℕ, ◌+◌, arith, if◌then◌else◌, ◌==◌,
  text_eq_instance, pair_eq, Bool-cases, NoDup, has_iff, not-Memᴰ, has-eq-false, beq_refl, and-left,
  and-right,
}
use mathlib.Core.List.Memᴰ
use com_mcm.Graph.Relation.{Edge}
use com_mcm.Graph.Rvwmo.Complete.{Sorting}

-- An edge into `x` from a node that is not in the order yet.
abbrev pub is_open : List String → String → Edge → Bool
is_open order x edge = edge.1 == x && not (has edge.0 order)

-- How many of the edges are open.
unfoldable pub pending : List Edge → List String → String → ℕ
pending es order x = length (filter (is_open order x) es)

has-concat :
    (a node : String) (order : List String)
    → has a (order ++ (node ∷ [])) ≡ (has a order || a == node)
unfolding has
has-concat a node [] = ground arith
has-concat a node (x ∷ xs) = ground (arith, has-concat a node xs)

-- One edge more.
pending-cons :
    (e : Edge) (es : List Edge) (order : List String) (x : String)
    → pending (e ∷ es) order x ≡ (if is_open order x e then 1 else 0) + pending es order x
unfolding pending filter
pending-cons e es order x = elim (Bool-cases (is_open order x e)) [
  | inl y ↦ rw y (omega arith)
  | inr n ↦ rw n (omega arith)
]

-- Whether the edge is the one from `node` to `x`.
is_open-concat :
    (a b node x : String) (order : List String)
    → ¬ Memᴰ node order
    → (if is_open order x (a, b) then 1 else 0)
      ≡ (if is_open (order ++ (node ∷ [])) x (a, b) then 1 else 0)
        + (if node == a && x == b then 1 else 0)
is_open-concat a b node x order n = rw (has-concat a node order) (
    ground (
      arith,
      text_eq_instance.beq_iff a node,
      text_eq_instance.beq_iff node a,
      text_eq_instance.beq_iff b x,
      text_eq_instance.beq_iff x b,
      missing,
    ))
  where
    missing : a ≡ node → has a order ≡ false
    missing p = has-eq-false a order (λ m. n (Memᴰ.cast (sym p) m))

-- Appending a node closes its one edge into `x`, if it has one.
pub pending-concat :
    (es : List Edge) (order : List String) (node x : String)
    → NoDup es
    → ¬ Memᴰ node order
    → pending es order x ≡ pending es (order ++ (node ∷ [])) x + (if has (node, x) es then 1 else 0)
unfolding pending has filter
pending-concat [] order node x d n = refl
pending-concat ((a, b) ∷ es) order node x d n =
    let ih = pending-concat es order node x d.1 n in
    let p = pending-cons (a, b) es order x in
    let q = pending-cons (a, b) es (order ++ (node ∷ [])) x in
    let r = is_open-concat a b node x order n in
    elim (Bool-cases (node == a && x == b)) [
      | inl y ↦
          let f =
            has-eq-false (node, x) es
              (λ m. d.0 (Memᴰ.cast (sym ((pair_eq.beq_iff (node, x) (a, b)).0 y)) m)) in
          ground (arith, ih, p, q, r, y, f)
      | inr y ↦ ground (arith, ih, p, q, r, y)
    ]

pending-nil : (order : List String) (x : String) → pending [] order x ≡ 0
unfolding pending filter
pending-nil order x = refl

open_missing :
    (order : List String) (x u : String) → has u order ≡ false → is_open order x (u, x) ≡ true
open_missing order x u n = ground (arith, beq_refl x)

-- No edge is open exactly if all predecessors are in the order.
pub pending-eq-zero :
    (es : List Edge) (order : List String) (x u : String)
    → pending es order x ≡ 0
    → Memᴰ (u, x) es
    → Memᴰ u order
pending-eq-zero [] order x u h m = absurd (Memᴰ.not-nil m)
pending-eq-zero (e ∷ es) order x u h m = elim (Memᴰ.cases_cons m) [
  | inl same ↦ elim (Bool-cases (has u order)) [
    | inl y ↦ (has_iff u order).0 y
    | inr n ↦
        let o : is_open order x e ≡ true =
          ap (is_open order x) (sym same) ∙ open_missing order x u n in
        absurd (ground (arith, pending-cons e es order x, h, o))
  ]
  | inr k ↦ pending-eq-zero es order x u (omega (arith, pending-cons e es order x, h)) k
]

pub pending-open :
    (es : List Edge) (order : List String) (x : String)
    → pending es order x ≢ 0
    → (u : String) × Memᴰ (u, x) es × ¬ Memᴰ u order
pending-open [] order x h = absurd (h (pending-nil order x))
pending-open ((a, b) ∷ es) order x h = elim (Bool-cases (is_open order x (a, b))) [
  | inl y ↦
      let p = (text_eq_instance.beq_iff b x).0 (and-left (b == x) _ y) in
      (
        a,
        Memᴰ.head (ap (λ z. (a, z)) (sym p)),
        not-Memᴰ a order (ground (arith, and-right (b == x) (not (has a order)) y)),
      )
  | inr n ↦
      let (u, m, w) =
        pending-open es order x (λ z. h (ground (arith, pending-cons (a, b) es order x, n, z))) in
      (u, Memᴰ.tail m, w)
]

module _ (edges : List Edge) where
  -- The predecessors of each node are in `seen` or before it.
  abbrev pub Respects : List String → List String → Type 0
  Respects seen [] = Unit
  Respects seen (x ∷ xs) = ((u : String) → Memᴰ (u, x) edges → Memᴰ u seen) × Respects (x ∷ seen) xs

  pub Respects-concat :
      (seen xs : List String) (x : String)
      → Respects seen xs
      → ((u : String) → Memᴰ (u, x) edges → Memᴰ u seen ⊎ Memᴰ u xs)
      → Respects seen (xs ++ (x ∷ []))
  Respects-concat seen [] x r h =
      (λ u m. elim (h u m) [ inl k ↦ k | inr k ↦ absurd (Memᴰ.not-nil k) ], tt)
  Respects-concat seen (y ∷ ys) x r h = (
    r.0,
    Respects-concat (y ∷ seen) ys x r.1 (λ u m. elim (h u m) [
      | inl k ↦ inl (Memᴰ.tail k)
      | inr k ↦ elim (Memᴰ.cases_cons k) [ inl same ↦ inl (Memᴰ.head same) | inr l ↦ inr l ]
    ]),
  )

  Respects-closed :
      (seen xs : List String) (u x : String)
      → Respects seen xs
      → Memᴰ x xs
      → Memᴰ (u, x) edges
      → Memᴰ u seen ⊎ Memᴰ u xs
  Respects-closed seen [] u x r m e = absurd (Memᴰ.not-nil m)
  Respects-closed seen (y ∷ ys) u x r m e = elim (Memᴰ.cases_cons m) [
    | inl same ↦ inl (r.0 u (Memᴰ.cast (λ i. (u, sym same i)) e))
    | inr k ↦ elim (Respects-closed (y ∷ seen) ys u x r.1 k e) [
      | inl l ↦ elim (Memᴰ.cases_cons l) [ inl same ↦ inr (Memᴰ.head same) | inr w ↦ inl w ]
      | inr l ↦ inr (Memᴰ.tail l)
    ]
  ]

  -- Between two rounds.
  pub record Inv (nodes : List String) (s : Sorting) : Type 0 where
    pub degrees : (x : String) → s.indegree x ≡ pending edges s.order x
    pub ready_iff :
        (x : String) → Memᴰ x s.ready ↔ (Memᴰ x nodes × ¬ Memᴰ x s.order × (s.indegree x ≡ 0))
    pub ready_once : NoDup s.ready
    pub order_once : NoDup s.order
    pub inside : (x : String) → Memᴰ x s.order → Memᴰ x nodes
    pub respects : Respects [] s.order

  pub Inv-closed :
      (nodes : List String) (s : Sorting)
      → Inv nodes s
      → (u x : String) → Memᴰ x s.order
      → Memᴰ (u, x) edges
      → Memᴰ u s.order
  Inv-closed nodes s i u x m e = elim (Respects-closed [] s.order u x i.respects m e) [
    | inl k ↦ absurd (Memᴰ.not-nil k)
    | inr k ↦ k
  ]
