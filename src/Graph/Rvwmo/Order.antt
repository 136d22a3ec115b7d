-- ===== src/Graph/Rvwmo/Order.antt =====
-- The loop of _topological_total_order (src/umcm/graph/rvwmo.py): removing the edges of one node.
pub mod Loop
pub mod Round
pub mod Total
pub mod Acyclic
pub mod Verdict
use com_mcm.Prelude.{
  ◌≡◌, ◌≢◌, refl, sym, ◌∙◌, ap, subst, ◌↔◌, ◌⊎◌, inl, inr, String, Bool, true, false, not, ◌&&◌,
  ◌||◌, List, [], ◌∷◌, ◌++◌, Memᴰ, Memᴰ-filter, Memᴰ-map, Memᴰ-sorted, Memᴰ-to_set, Memᴰ-append,
  filter, map, has, sorted, to_set, text_leb, length, ℕ, ◌+◌, ◌-◌, arith, if◌then◌else◌, ◌==◌,
  text_eq_instance, nat_eq, pair_eq, Bool-cases, NoDup, sorted-NoDup, to_set-NoDup, NoDup-concat,
  has_iff, has-eq-false, beq_refl,
}
use mathlib.Core.List.Memᴰ
use com_mcm.Graph.Relation.{Edge}
use com_mcm.Graph.Cycle.{update}
use com_mcm.Graph.Rvwmo.Complete.{Sorting, release_targets, successor_set}

module _ (edges : List Edge) where
  pub Memᴰ-successor_set :
      (node x : String) → Memᴰ x (successor_set edges node) ↔ Memᴰ (node, x) edges
  Memᴰ-successor_set node x = (to, from)
    where
      test : Edge → Bool
      test edge = edge.0 == node

      targets : List String
      targets = map (λ edge. edge.1) (filter test edges)

      to : Memᴰ x (successor_set edges node) → Memᴰ (node, x) edges
      to m =
          let k = (Memᴰ-to_set x targets).0 ((Memᴰ-sorted text_leb x (to_set targets)).0 m) in
          let ((a, b), l, p) = (Memᴰ-map (λ edge. edge.1) x (filter test edges)).0 k in
          let (w, t) = (Memᴰ-filter test (a, b) edges).0 l in
          subst (λ z. Memᴰ (node, z) edges) p
            (subst (λ z. Memᴰ (z, b) edges) ((text_eq_instance.beq_iff a node).0 t) w)

      from : Memᴰ (node, x) edges → Memᴰ x (successor_set edges node)
      from m = (Memᴰ-sorted text_leb x (to_set targets)).1 (
          (Memᴰ-to_set x targets).1 (
            (Memᴰ-map (λ edge. edge.1) x (filter test edges)).1
              ((node, x), (Memᴰ-filter test (node, x) edges).1 (m, beq_refl node), refl)))

  pub successor_set-NoDup : (node : String) → NoDup (successor_set edges node)
  successor_set-NoDup node = sorted-NoDup text_leb _ (to_set-NoDup _)

-- The list of ready nodes after one successor.
abbrev ready_after : List String → String → ℕ → List String
ready_after ready t degree = if degree == 0 then sorted text_leb (ready ++ (t ∷ [])) else ready

Memᴰ-ready_after :
    (ready : List String) (t x : String) (degree : ℕ)
    → Memᴰ x (ready_after ready t degree) ↔ (Memᴰ x ready ⊎ ((x ≡ t) × (degree ≡ 0)))
Memᴰ-ready_after ready t x degree = elim (Bool-cases (degree == 0)) [
  | inl y ↦ rw y (
    λ m. elim (Memᴰ.append_cases ready ((Memᴰ-sorted text_leb x (ready ++ (t ∷ []))).0 m)) [
      | inl k ↦ inl k
      | inr k ↦ elim (Memᴰ.cases_cons k) [
        | inl same ↦ inr (same, (nat_eq.beq_iff degree 0).0 y)
        | inr l ↦ absurd (Memᴰ.not-nil l)
      ]
    ],
    λ m. (Memᴰ-sorted text_leb x (ready ++ (t ∷ []))).1 (elim m [
      | inl k ↦ Memᴰ.append_left (t ∷ []) k
      | inr k ↦ Memᴰ.append_right ready (Memᴰ.head k.0)
    ]),
  )
  | inr n ↦ rw n (
    inl,
    λ m. elim m [ inl k ↦ k | inr k ↦ let z = (nat_eq.beq_iff degree 0).1 k.1 in absurd cc ],
  )
]

ready_after-NoDup :
    (ready : List String) (t : String) (degree : ℕ)
    → NoDup ready
    → ¬ Memᴰ t ready
    → NoDup (ready_after ready t degree)
ready_after-NoDup ready t degree d n = elim (Bool-cases (degree == 0)) [
  | inl y ↦ rw y (sorted-NoDup text_leb _ (NoDup-concat ready t d n))
  | inr f ↦ rw f d
]

-- What the loop over the successors of a node does.
pub record Released (ts : List String) (s t : Sorting) : Type 0 where
  pub order : t.order ≡ s.order
  pub indegree : (x : String) → t.indegree x ≡ (if has x ts then s.indegree x - 1 else s.indegree x)
  pub ready :
      (x : String) → Memᴰ x t.ready ↔ (Memᴰ x s.ready ⊎ (Memᴰ x ts × (s.indegree x - 1 ≡ 0)))
  pub ready_once : NoDup t.ready

-- One round, given what the others do.
Released-cons :
    (t : String) (ts : List String) (s r : Sorting)
    → ¬ Memᴰ t ts
    → Released ts
        (record {
          indegree = update s.indegree t (s.indegree t - 1);
          ready = ready_after s.ready t (s.indegree t - 1);
          order = s.order;
        })
        r
    → Released (t ∷ ts) s r
unfolding has
Released-cons t ts s r n k = record {
  order = k.order;
  indegree = λ x. elim (Bool-cases (x == t)) [
    | inl y ↦
        let p = (text_eq_instance.beq_iff x t).0 y in
        let f = has-eq-false x ts (λ m. n (Memᴰ.cast (sym p) m)) in
        rw y (k.indegree x ∙ rw (f, y) (ap (λ z. s.indegree z - 1) (sym p)))
    | inr f ↦ rw f (k.indegree x ∙ rw f refl)
  ];
  ready = λ x. (to x, from x);
  ready_once = k.ready_once;
}
  where
    unchanged : (x : String) → Memᴰ x ts → update s.indegree t (s.indegree t - 1) x ≡ s.indegree x
    unchanged x m = elim (Bool-cases (x == t)) [
      | inl y ↦ absurd (n (Memᴰ.cast (sym ((text_eq_instance.beq_iff x t).0 y)) m))
      | inr f ↦ rw f refl
    ]

    to : (x : String) → Memᴰ x r.ready → Memᴰ x s.ready ⊎ (Memᴰ x (t ∷ ts) × (s.indegree x - 1 ≡ 0))
    to x m = elim ((k.ready x).0 m) [
      | inl l ↦ elim ((Memᴰ-ready_after s.ready t x (s.indegree t - 1)).0 l) [
        | inl w ↦ inl w
        | inr w ↦ inr (Memᴰ.head w.0, ap (λ z. s.indegree z - 1) w.0 ∙ w.1)
      ]
      | inr l ↦ inr (Memᴰ.tail l.0, ap (λ z. z - 1) (sym (unchanged x l.0)) ∙ l.1)
    ]

    from :
        (x : String) → Memᴰ x s.ready ⊎ (Memᴰ x (t ∷ ts) × (s.indegree x - 1 ≡ 0)) → Memᴰ x r.ready
    from x m = (k.ready x).1 (elim m [
      | inl l ↦ inl ((Memᴰ-ready_after s.ready t x (s.indegree t - 1)).1 (inl l))
      | inr l ↦ elim (Memᴰ.cases_cons l.0) [
        | inl same ↦ inl (
            (Memᴰ-ready_after s.ready t x (s.indegree t - 1)).1
              (inr (same, ap (λ z. s.indegree z - 1) (sym same) ∙ l.1)))
        | inr w ↦ inr (w, ap (λ z. z - 1) (unchanged x w) ∙ l.1)
      ]
    ])

pub release_targets-Released :
    (ts : List String) (s : Sorting)
    → NoDup ts
    → NoDup s.ready
    → ((x : String) → Memᴰ x ts → ¬ Memᴰ x s.ready)
    → Released ts s (release_targets ts s)
unfolding release_targets has
release_targets-Released [] s d r n = record {
  order = refl;
  indegree = λ x. refl;
  ready = λ x. (inl, λ h. elim h [ inl k ↦ k | inr k ↦ absurd (Memᴰ.not-nil k.0) ]);
  ready_once = r;
}
release_targets-Released (t ∷ ts) s d r n = Released-cons t ts s _ d.0 (
    release_targets-Released ts
      (record {
        indegree = update s.indegree t (s.indegree t - 1);
        ready = ready_after s.ready t (s.indegree t - 1);
        order = s.order;
      })
      d.1 (ready_after-NoDup s.ready t (s.indegree t - 1) r (n t (Memᴰ.head refl)))
      (λ x m k. elim ((Memᴰ-ready_after s.ready t x (s.indegree t - 1)).0 k) [
        | inl l ↦ n x (Memᴰ.tail m) l
        | inr l ↦ d.0 (Memᴰ.cast (sym l.0) m)
      ]))
