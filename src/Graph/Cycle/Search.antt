-- ===== src/Graph/Cycle/Search.antt =====
-- The depth-first search keeps its invariant, and the path that it returns is a cycle
-- (`dfs` in find_labeled_cycle, src/umcm/graph/relation.py).
use com_mcm.Prelude.{
  ◌≡◌, refl, sym, ◌∙◌, ap, ◌⊎◌, inl, inr, String, some, List, [], ◌∷◌, ◌++◌, Memᴰ, has_iff, has,
  text_eq_instance, pair_eq, Bool-cases, ◌≢◌, ℕ, zero, suc, ◌≤◌, length, subst, drop, get_elem?,
  flat_map, not-Memᴰ,
}
use mathlib.Core.List.Memᴰ
use native.Mathlib.Nat.{le_trans}
use com_mcm.Errors.{ok}
use com_mcm.Graph.Relation.{Edge, Relation}
use com_mcm.Graph.Cycle.{
  and_then, close, LabeledEdge, Color, white, gray, black, State, Outcome, found, finished, raised,
  exhausted, all_edges, label, label_path, close, scan, pop,
}
use com_mcm.Graph.Cycle.Invariant.{
  FirstHolder, this, later, Trail, IsCycle, Linked, Linked-concat, Linked-drop, Inv, Keeps,
  Keeps-refl, Keeps-trans, whites, Keeps-whites,
}

label_lem :
    (e : Edge) (rs : List Relation)
    → Memᴰ e (all_edges rs)
    → (name : String) × (label e rs ≡ ok name) × FirstHolder e name rs
unfolding label flat_map
label_lem e [] m = absurd (Memᴰ.not-nil m)
label_lem e (r ∷ rs) m = elim (Bool-cases (has e r.edges)) [
  | inl h ↦ (r.name, rw h refl, this ((has_iff e r.edges).0 h) refl)
  | inr h ↦ elim (Memᴰ.append_cases r.edges m) [
    | inl k ↦ absurd (not-Memᴰ e r.edges h k)
    | inr k ↦ let (n, p, q) = label_lem e rs k in (n, rw h p, later (not-Memᴰ e r.edges h) q)
  ]
]

module _ {ℓ} {A : Type ℓ} where
  drop-eq-cons :
      (xs : List A) (i : ℕ) (x : A)
      → get_elem? xs i ≡ some x
      → (rest : List A) × (drop i xs ≡ x ∷ rest)
  drop-eq-cons [] i x h = cc
  drop-eq-cons (y ∷ ys) zero x h = (ys, cc)
  drop-eq-cons (y ∷ ys) (suc i) x h = drop-eq-cons ys i x h

  drop-concat :
      (xs : List A) (a : A) (i : ℕ) (x : A)
      → get_elem? (xs ++ (a ∷ [])) i ≡ some x
      → (ys : List A) × (drop i (xs ++ (a ∷ [])) ≡ ys ++ (a ∷ []))
  drop-concat [] a zero x h = ([], refl)
  drop-concat [] a (suc i) x h = cc
  drop-concat (y ∷ ys) a zero x h = (y ∷ ys, refl)
  drop-concat (y ∷ ys) a (suc i) x h = drop-concat ys a i x h

  pub get_elem?-append :
      (xs ys : List A) (i : ℕ) (x : A) → get_elem? xs i ≡ some x → get_elem? (xs ++ ys) i ≡ some x
  get_elem?-append [] ys i x h = cc
  get_elem?-append (y ∷ xs) ys zero x h = h
  get_elem?-append (y ∷ xs) ys (suc i) x h = get_elem?-append xs ys i x h

  pub get_elem?-length : (xs : List A) (a : A) → get_elem? (xs ++ (a ∷ [])) (length xs) ≡ some a
  get_elem?-length [] a = refl
  get_elem?-length (x ∷ xs) a = get_elem?-length xs a

pub pop-concat : (xs : List String) (a : String) → pop (xs ++ (a ∷ [])) ≡ xs
unfolding pop
pop-concat [] a = refl
pop-concat (x ∷ []) a = refl
pop-concat (x ∷ (y ∷ ys)) a = ap (λ (l : List String). x ∷ l) (pop-concat (y ∷ ys) a)

module _ (relations : List Relation) where
  label_path_lem :
      (a : String) (xs : List String) (b : String)
      → Linked (all_edges relations) (a ∷ (xs ++ (b ∷ [])))
      → (es : List LabeledEdge) × (label_path relations (a ∷ (xs ++ (b ∷ []))) ≡ ok es)
        × (es ≢ [])
        × Trail relations a b es
  unfolding label_path
  label_path_lem a [] b h =
      let (name, p, q) = label_lem (a, b) relations h.0 in
      (record { source = a; relation = name; target = b } ∷ [], rw p refl, cc, (refl, q, refl))
  label_path_lem a (x ∷ xs) b h =
      let (name, p, q) = label_lem (a, x) relations h.0 in
      let (es, r, n, t) = label_path_lem x xs b h.1 in
      (record { source = a; relation = name; target = x } ∷ es, rw (p, r) refl, cc, (refl, q, t))

  -- A node `target` may be searched next: it follows the top of the stack.
  abbrev pub Fits : State → String → Type 0
  Fits s target =
      (s.stack ≡ [])
      ⊎ ((base : List String) × (top : String) × (s.stack ≡ base ++ (top ∷ []))
          × Memᴰ (top, target) (all_edges relations))

  close-eq-found :
      (target : String) (s : State) (i : ℕ) (rest : List String) (es : List LabeledEdge)
      → s.position target ≡ some i
      → drop i s.stack ≡ target ∷ rest
      → label_path relations (target ∷ (rest ++ (target ∷ []))) ≡ ok es
      → close relations target s ≡ found es
  unfolding close
  close-eq-found target s i rest es p r u = rw (p, close) (rw (r, u) refl)

  close_lem :
      (target : String) (s : State) (order base : List String) (top : String)
      → Inv (all_edges relations) s order
      → s.color target ≡ gray
      → s.stack ≡ base ++ (top ∷ [])
      → Memᴰ (top, target) (all_edges relations)
      → (es : List LabeledEdge) × (close relations target s ≡ found es) × IsCycle relations es
  close_lem target s order base top inv g e m =
      let (i, p, q) = inv.placed target g in
      let (rest, r) = drop-eq-cons s.stack i target q in
      let (ys, t) = drop-concat base top i target (rw e at q) in
      let tail_linked : Linked (all_edges relations) (drop i s.stack ++ (target ∷ [])) =
        subst (λ (l : List String). Linked (all_edges relations) (l ++ (target ∷ [])))
          (sym (ap (drop i) e ∙ t))
          (Linked-concat (all_edges relations) ys top target
            (subst (Linked (all_edges relations)) (ap (drop i) e ∙ t)
              (Linked-drop (all_edges relations) i s.stack inv.linked))
            m) in
      let (es, u, n, trail) = label_path_lem target rest target (
        subst (λ (l : List String). Linked (all_edges relations) (l ++ (target ∷ []))) r
          tail_linked) in
      (es, close-eq-found target s i rest es p r u, (n, (target, trail)))

  -- A search returns a cycle, or a state of which `P` holds. It raises no exception, and its
  -- recursion is not cut off.
  abbrev pub Ensures : (State → Type 0) → Outcome → Type 0
  Ensures P (found es) = IsCycle relations es
  Ensures P (finished t) = P t
  Ensures P (raised e) = ⊥
  Ensures P exhausted = ⊥

  -- From `s` the search came to `t`, with everything done of which `Done` speaks.
  pub record After (Done : State → Type 0) (s t : State) : Type 0 where
    pub order : List String
    pub inv : Inv (all_edges relations) t order
    pub keeps : Keeps s t
    pub fact : Done t

  -- What `dfs` promises of a white node.
  abbrev pub Searches : (String → State → Outcome) → List String → ℕ → Type 0
  Searches search nodes bound =
      (node : String) (s : State) (order : List String)
      → Inv (all_edges relations) s order
      → s.color node ≡ white
      → Fits s node
      → Memᴰ node nodes
      → whites s nodes ≤ bound
      → Ensures (After (λ t. t.color node ≡ black) s) (search node s)

  abbrev pub AllBlack : List String → State → Type 0
  AllBlack ts s = (x : String) → Memᴰ x ts → s.color x ≡ black

  pub Ensures-bind :
      (P Q : State → Type 0) (o : Outcome) (next : State → Outcome)
      → Ensures P o
      → ((t : State) → P t → Ensures Q (next t))
      → Ensures Q (and_then o next)
  Ensures-bind P Q (found es) next e h = e
  Ensures-bind P Q (finished t) next e h = h t e
  Ensures-bind P Q (raised x) next e h = e
  Ensures-bind P Q exhausted next e h = e

  pub Ensures-map :
      (P Q : State → Type 0) (o : Outcome) → ((t : State) → P t → Q t) → Ensures P o → Ensures Q o
  Ensures-map P Q (found es) h e = e
  Ensures-map P Q (finished t) h e = h t e
  Ensures-map P Q (raised x) h e = e
  Ensures-map P Q exhausted h e = e

  pub Color-cases : (c : Color) → (c ≡ white) ⊎ ((c ≡ gray) ⊎ (c ≡ black))
  Color-cases white = inl refl
  Color-cases gray = inr (inl refl)
  Color-cases black = inr (inr refl)

  close-Ensures :
      (P : State → Type 0) (target : String) (s : State)
      → ((es : List LabeledEdge) × (close relations target s ≡ found es) × IsCycle relations es)
      → Ensures P (close relations target s)
  close-Ensures P target s (es, p, c) = subst (Ensures P) (sym p) c

  module _ (search : String → State → Outcome) (nodes : List String) (bound : ℕ)
      (searches : Searches search nodes bound) (base : List String) (top : String) where
    abbrev pub Scanned : List String → State → Outcome → Type 0
    Scanned ts s o = Ensures (After (AllBlack ts) s) o

    After-first :
        (target : String) (rest : List String) (s t : State)
        → Keeps s t
        → t.color target ≡ black
        → (u : State) → After (AllBlack rest) t u
        → After (AllBlack (target ∷ rest)) s u
    After-first target rest s t k b u a = record {
      order = a.order;
      inv = a.inv;
      keeps = Keeps-trans s t u k a.keeps;
      fact = λ x m. elim (Memᴰ.cases_cons m) [
        | inl e ↦ subst (λ z. u.color z ≡ black) (sym e) (a.keeps.blacks target b)
        | inr l ↦ a.fact x l
      ];
    }

    pub scan_lem :
        (ts : List String) (s : State) (order : List String)
        → Inv (all_edges relations) s order
        → s.stack ≡ base ++ (top ∷ [])
        → ((t : String) → Memᴰ t ts → Memᴰ (top, t) (all_edges relations) × Memᴰ t nodes)
        → whites s nodes ≤ bound
        → Scanned ts s (scan relations search ts s)
    unfolding scan
    scan_lem [] s order inv e out w = record {
      order = order;
      inv = inv;
      keeps = Keeps-refl s;
      fact = λ x m. absurd (Memᴰ.not-nil m);
    }
    scan_lem (target ∷ rest) s order inv e out w = elim (Color-cases (s.color target)) [
      | inl c ↦
          rw (c, scan)
            (Ensures-bind (After (λ t. t.color target ≡ black) s)
              (After (AllBlack (target ∷ rest)) s) (search target s)
              (λ t. scan relations search rest t)
              (searches target s order inv c (inr (base, top, e, (out target (Memᴰ.head refl)).0))
                (out target (Memᴰ.head refl)).1 w)
              (λ t a.
                Ensures-map (After (AllBlack rest) t) (After (AllBlack (target ∷ rest)) s)
                  (scan relations search rest t) (After-first target rest s t a.keeps a.fact)
                  (scan_lem rest t a.order a.inv (a.keeps.stack ∙ e) (λ x m. out x (Memᴰ.tail m))
                    (le_trans (Keeps-whites s t nodes a.keeps) w))))
      | inr (inl c) ↦
          rw (c, scan)
            (close-Ensures (After (AllBlack (target ∷ rest)) s) target s
              (close_lem target s order base top inv c e (out target (Memᴰ.head refl)).0))
      | inr (inr c) ↦
          rw (c, scan)
            (Ensures-map (After (AllBlack rest) s) (After (AllBlack (target ∷ rest)) s)
              (scan relations search rest s) (After-first target rest s s (Keeps-refl s) c)
              (scan_lem rest s order inv e (λ x m. out x (Memᴰ.tail m)) w))
    ]
