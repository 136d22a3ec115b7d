-- ===== src/Graph/Checker/Verdict.antt =====
-- The status of a memory-model check and its representative (src/umcm/graph/checker.py).
use com_mcm.Prelude.{
  ◌≡◌, refl, ◌↔◌, inl, inr, Bool, true, false, not, some, List, [], ◌∷◌, Memᴰ, any, any_iff, arith,
  if◌then◌else◌, Bool-cases, subst,
}
use com_mcm.Errors.{ok-injective, Result, ok, guard, guard-eq-ok, >>=-eq-ok, graph_error, ◌>>◌}
use com_mcm.Graph.Execution.{ExecutionGraph}
use com_mcm.Graph.Checker.{
  AxiomSpec, AxiomResult, CandidateCheck, MemoryModelCheck, model_allowed, model_forbidden, allowed,
  first_allowed, representative, check_candidates, check_memory_model, is_empty, verdict_of,
}

status_allowed :
    (b : Bool) → ((if b then model_allowed else model_forbidden) ≡ model_allowed) ↔ (b ≡ true)
status_allowed true = (λ h. refl, λ h. refl)
status_allowed false = (λ h. cc, λ h. cc)

first_allowed_lem :
    (cs : List CandidateCheck)
    → any allowed cs ≡ true
    → (c : CandidateCheck) × (first_allowed cs ≡ some c) × Memᴰ c cs × (allowed c ≡ true)
unfolding first_allowed any
first_allowed_lem [] h = cc
first_allowed_lem (c ∷ cs) h = elim (Bool-cases (allowed c)) [
  | inl t ↦ rw t (c, refl, Memᴰ.head refl, t)
  | inr f ↦
      let (d, e, m, a) = first_allowed_lem cs (ground (arith, f, h)) in rw f (d, e, Memᴰ.tail m, a)
]

-- The representative is a candidate, and it is allowed exactly if the trace is.
abbrev pub Represents : MemoryModelCheck → Type 0
Represents check =
    (r : CandidateCheck) × (representative check ≡ ok r)
    × Memᴰ r check.candidates
    × ((allowed r ≡ true) ↔ (check.status ≡ model_allowed))

verdict_of-Represents :
    (cs : List CandidateCheck) → not (is_empty cs) ≡ true → Represents (verdict_of cs)
unfolding representative
verdict_of-Represents [] h = cc
verdict_of-Represents (c ∷ cs) h = elim (Bool-cases (any allowed (c ∷ cs))) [
  | inl t ↦
      let (d, e, m, a) = first_allowed_lem (c ∷ cs) t in
      rw (t, representative, e) (d, refl, m, (λ z. refl, λ z. a))
  | inr f ↦ rw f (
    c,
    refl,
    Memᴰ.head refl,
    (λ z. absurd (let t = (any_iff allowed (c ∷ cs)).1 (c, Memᴰ.head refl, z) in cc), λ z. cc),
  )
]

-- Whatever the built-in check and the axioms are, a memory-model check that does not raise has a
-- representative among its candidates, and all axioms are satisfied by the representative exactly
-- if the status is ALLOWED.
pub representative_lem :
    (builtin : ExecutionGraph → Result (List AxiomResult)) (axioms : List AxiomSpec)
    (graphs : List ExecutionGraph) (check : MemoryModelCheck)
    → check_memory_model builtin axioms graphs ≡ ok check
    → Represents check
unfolding check_memory_model
representative_lem builtin axioms graphs check h =
    let (cs, p, q) =
      >>=-eq-ok (check_candidates builtin axioms graphs)
        (λ cs. guard (not (is_empty cs)) graph_error >> ok (verdict_of cs)) h in
    let (u, g, e) =
      >>=-eq-ok (guard (not (is_empty cs)) graph_error) (λ done. ok (verdict_of cs)) q in
    subst Represents (ok-injective e) (verdict_of-Represents cs (guard-eq-ok _ graph_error g))
