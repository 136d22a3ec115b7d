-- ===== src/Solver/State.antt =====
-- Simulation of the declared state: src/umcm/solver/state.py. What an infeasible result reports of
-- its cause, and the names of requirements and updates that the steps list, are left out.
pub mod Writes
pub mod Refinement
pub mod Verdict
use com_mcm.Prelude.{
  lookup, put, ◌≡◌, String, Bool, true, false, not, ◌&&◌, Option, none, some, List, [], ◌∷◌, ◌++◌,
  ℕ, zero, suc, ◌+◌, ◌≤◌, leb, map, filter, all, to_set, sorted, text_leb, has, if◌then◌else◌, ◌==◌,
  text_eq_instance, nat_eq,
}
use com_mcm.Prelude.Int.{pos}
use com_mcm.Errors.{Result, ok, err, key_error, ◌>>=◌}
use com_mcm.Ir.Sort.{Value, int}
use com_mcm.Ir.Expression.{Expr}
use com_mcm.Ir.Event.{Attribute, value, expression}
use com_mcm.Solver.Value.{py_eq, less}
use com_mcm.Solver.Evaluator.{Partial, is_true, is_unknown}
use com_mcm.Solver.Problem.{
  Comparison, eq, ne, lt, le, gt, ge, StateVariable, StateRequirementInstance, StateUpdateInstance,
  GuardPredicateInstance, GuardedForwardInstance, GuardedSupportCandidate, GuardedSupportInstance,
  StateProblem,
}

-- The dict from names to values.
abbrev pub State : Type 0
State = List (String × Value)

pub record StateChange : Type 0 where
  pub state : String
  pub before : Value
  pub after : Value

pub record StateStep : Type 0 where
  pub cycle : ℕ
  pub before : State
  pub after : State
  pub changes : List StateChange

pub data StateCheckResult : Type 0 where
  infeasible : StateCheckResult
  feasible : State → State → List StateStep → StateCheckResult

abbrev pub as_test : Bool → Result Bool → Result Bool
as_test b (ok c) = ok (if b then c else not c)
as_test b (err e) = err e

-- `_compare_state`
unfoldable pub compare_state : Comparison → Value → Value → Result Bool
unfolding py_eq less
compare_state eq a b = ok (py_eq a b)
compare_state ne a b = ok (not (py_eq a b))
compare_state lt a b = less a b
compare_state le a b = as_test false (less b a)
compare_state gt a b = less b a
compare_state ge a b = as_test false (less a b)

-- `_valid_cycle`, with the cycle.
abbrev pub valid_cycle : ℕ → Partial → Option ℕ
valid_cycle horizon (some (int (pos n))) = if leb n horizon then some n else none
valid_cycle horizon _ = none

abbrev pub or_key_error {ℓ} : {A : Type ℓ} → Option A → Result A
or_key_error none = err key_error
or_key_error (some a) = ok a

-- A required value or a value to write, at a cycle.
pub record Active {u} (Item : Type u) : Type u where
  pub at_cycle : ℕ
  pub item : Item
  pub given : Value

-- The outcome of a loop that stops with an infeasible result, `none`, or goes on.
abbrev pub Checked {ℓ} : Type ℓ → Type ℓ
Checked A = Result (Option A)

abbrev pub go_on {ℓ ℓ'} : {A : Type ℓ} {B : Type ℓ'} → Option A → (A → Checked B) → Checked B
go_on none next = ok none
go_on (some a) next = next a

-- The pair of a valid cycle and a known value.
abbrev pub placed {ℓ} : {Item : Type ℓ} → Item → Option ℕ → Partial → Option (Active Item)
placed item (some cycle) (some v) = some (record { at_cycle = cycle; item = item; given = v })
placed item _ _ = none

abbrev pub prepend {ℓ} : {A : Type ℓ} → A → Option (List A) → Option (List A)
prepend a none = none
prepend a (some rest) = some (a ∷ rest)

-- The active items of one cycle.
abbrev pub at_cycle_of {ℓ} : {Item : Type ℓ} → ℕ → List (Active Item) → List (Active Item)
at_cycle_of cycle items = filter (λ a. a.at_cycle == cycle) items

-- The writes to one cell.
abbrev pub writes_of :
    String → List (Active StateUpdateInstance) → List (Active StateUpdateInstance)
writes_of name updates = filter (λ u. u.item.state == name) updates

-- `range(horizon + 1)`, from a cycle on.
unfoldable pub cycles_from : ℕ → ℕ → List ℕ
cycles_from cycle zero = []
cycles_from cycle (suc n) = cycle ∷ cycles_from (suc cycle) n

module _ (evaluate : Expr → Result Partial) where
  -- `_concrete`
  abbrev pub concrete : Attribute → Result Partial
  concrete (value v) = ok (some v)
  concrete (expression e) = evaluate e

  unfoldable pub initial_state : List StateVariable → State → Checked State
  unfolding put
  initial_state [] state = ok (some state)
  initial_state (variable ∷ variables) state = concrete variable.initial >>= λ v.
      go_on v (λ x. initial_state variables (put variable.name x state))

  -- The items that are active, each with its cycle and its value.
  unfoldable pub active_items {ℓ} :
      {Item : Type ℓ} → ℕ → (Item → Expr × Expr × Expr) → List Item → Checked (List (Active Item))
  active_items horizon parts [] = ok (some [])
  active_items horizon parts (item ∷ items) = evaluate (parts item).0 >>= λ active.
      (let rest = active_items horizon parts items in
        if is_unknown active
        then ok none
        else if not (is_true active)
        then rest
        else (evaluate (parts item).1 >>= λ cycle. evaluate (parts item).2 >>= λ v.
            go_on (placed item (valid_cycle horizon cycle) v)
              (λ a. rest >>= λ others. ok (prepend a others))))

-- Whether the requirements hold in a state.
unfoldable pub requirements_hold : State → List (Active StateRequirementInstance) → Result Bool
unfolding lookup compare_state
requirements_hold state [] = ok true
requirements_hold state (r ∷ rs) = or_key_error (lookup r.item.state state) >>= λ actual.
    compare_state r.item.op actual r.given >>= λ holds.
    (let rest = requirements_hold state rs in if holds then rest else ok false)

abbrev pub changed : String → Value → Value → List StateChange → List StateChange
changed name old new changes =
    if py_eq old new then changes else record { state = name; before = old; after = new } ∷ changes

-- The writes to one cell: they have to agree.
abbrev pub agreed : List (Active StateUpdateInstance) → Option Value
agreed [] = none
agreed (u ∷ us) = if all (λ w. py_eq u.given w.given) us then some u.given else none

-- The loop over the cells that are written, in the order of their names.
unfoldable pub write_cells :
    List (Active StateUpdateInstance) → List String → State → Checked (State × List StateChange)
unfolding filter all py_eq lookup put
write_cells updates [] state = ok (some (state, []))
write_cells updates (name ∷ names) state = go_on (agreed (writes_of name updates)) (λ v.
    or_key_error (lookup name state) >>= λ old.
    write_cells updates names (put name v state) >>= λ rest.
    go_on rest (λ (final, changes). ok (some (final, changed name old v changes))))

-- The cells that the updates write.
abbrev pub written : List (Active StateUpdateInstance) → List String
written updates = sorted text_leb (to_set (map (λ u. u.item.state) updates))

-- The body of the loop over the cycles.
unfoldable pub step :
    List (Active StateRequirementInstance)
    → List (Active StateUpdateInstance)
    → State
    → Checked (State × List StateChange)
unfolding requirements_hold write_cells sorted to_set
step requirements updates state = requirements_hold state requirements >>= λ holds.
    (let next = write_cells updates (written updates) state in if holds then next else ok none)

-- What the loop over the cycles leaves: the last state, the recorded steps and the states before
-- the cycles.
pub record Simulation : Type 0 where
  pub final : State
  pub steps : List StateStep
  pub before_cycles : List (ℕ × State)

abbrev pub is_idle {ℓ ℓ'} : {A : Type ℓ} {B : Type ℓ'} → List A → List B → Bool
is_idle [] [] = true
is_idle _ _ = false

abbrev recorded : ℕ → State → Bool → State × List StateChange → Simulation → Simulation
recorded cycle before idle (after, changes) later = record {
  final = later.final;
  steps =
      if idle
      then later.steps
      else record { cycle = cycle; before = before; after = after; changes = changes }
        ∷ later.steps;
  before_cycles = (cycle, before) ∷ later.before_cycles;
}

unfoldable pub simulate :
    List (Active StateRequirementInstance)
    → List (Active StateUpdateInstance)
    → List ℕ
    → State
    → Checked Simulation
unfolding step filter
simulate requirements updates [] state =
    ok (some (record { final = state; steps = []; before_cycles = [] }))
simulate requirements updates (cycle ∷ cycles) state =
    step (at_cycle_of cycle requirements) (at_cycle_of cycle updates) state >>= λ next.
    go_on next (λ (after, changes). simulate requirements updates cycles after >>= λ later.
    go_on later (λ l. ok (
      some (
        recorded cycle state (is_idle (at_cycle_of cycle requirements) (at_cycle_of cycle updates))
          (after, changes) l))))

abbrev state_before : ℕ → List (ℕ × State) → Option State
state_before cycle [] = none
state_before cycle ((c, state) ∷ rest) = if c == cycle then some state else state_before cycle rest

abbrev is_yes : Option Bool → Bool
is_yes none = false
is_yes (some b) = b

abbrev pub or_infeasible {ℓ} :
    {A : Type ℓ} → Option A → (A → Result StateCheckResult) → Result StateCheckResult
or_infeasible none next = ok infeasible
or_infeasible (some a) next = next a

abbrev pub requirement_parts : StateRequirementInstance → Expr × Expr × Expr
requirement_parts r = (r.activation, r.cycle, r.expected)

abbrev pub update_parts : StateUpdateInstance → Expr × Expr × Expr
update_parts u = (u.activation, u.cycle, u.value)

module _ (evaluate : Expr → Result Partial) where
  -- `_guard_predicates_hold`; `none` stands for the error that a value is missing.
  unfoldable pub guard_predicates_hold :
      ℕ → List (ℕ × State) → List GuardPredicateInstance → Checked Bool
  unfolding compare_state lookup
  guard_predicates_hold horizon states [] = ok (some true)
  guard_predicates_hold horizon states (p ∷ ps) = evaluate p.cycle >>= λ cycle.
      evaluate p.expected >>= λ expected.
      go_on (placed p (valid_cycle horizon cycle) expected) (λ a.
        or_key_error (state_before a.at_cycle states) >>= λ state.
        or_key_error (lookup p.state state) >>= λ actual.
        compare_state p.op actual a.given >>= λ holds.
        (let rest = guard_predicates_hold horizon states ps in
          if holds then rest else ok (some false)))

  -- The loop over guarded_forwards: whether none of them fails.
  unfoldable pub forwards_hold : ℕ → List (ℕ × State) → List GuardedForwardInstance → Result Bool
  unfolding guard_predicates_hold
  forwards_hold horizon states [] = ok true
  forwards_hold horizon states (f ∷ fs) = evaluate f.antecedent >>= λ antecedent.
      (let rest = forwards_hold horizon states fs in
        if is_unknown antecedent
        then ok false
        else if not (is_true antecedent)
        then rest
        else (guard_predicates_hold horizon states f.predicates >>= λ guards. elim guards [
          | none ↦ ok false
          | some holds ↦
              if holds
              then (evaluate f.consequent >>= λ c. if is_true c then rest else ok false)
              else rest
        ]))

  -- The loop over the candidates of a support; `none` stands for an error.
  unfoldable pub is_supported : ℕ → List (ℕ × State) → List GuardedSupportCandidate → Checked Bool
  unfolding guard_predicates_hold
  is_supported horizon states [] = ok (some false)
  is_supported horizon states (c ∷ cs) = evaluate c.expression >>= λ v.
      (let rest = is_supported horizon states cs in
        if not (is_true v)
        then rest
        else (guard_predicates_hold horizon states c.predicates >>= λ guards.
            go_on guards (λ holds. if holds then ok (some true) else rest)))

  -- The loop over guarded_supports.
  unfoldable pub supports_hold : ℕ → List (ℕ × State) → List GuardedSupportInstance → Result Bool
  unfolding is_supported
  supports_hold horizon states [] = ok true
  supports_hold horizon states (s ∷ ss) = evaluate s.antecedent >>= λ antecedent.
      (let rest = supports_hold horizon states ss in
        if is_unknown antecedent
        then ok false
        else if not (is_true antecedent)
        then rest
        else (is_supported horizon states s.supports >>= λ supported.
            if is_yes supported then rest else ok false))

  -- `_check_guarded_transitions`
  unfoldable pub guarded_transitions_hold : StateProblem → List (ℕ × State) → Result Bool
  unfolding forwards_hold supports_hold
  guarded_transitions_hold problem states =
      forwards_hold problem.horizon states problem.forwards >>= λ holds.
      (let rest = supports_hold problem.horizon states problem.supports in
        if holds then rest else ok false)

  unfoldable pub check_state_semantics : StateProblem → Result StateCheckResult
  unfolding initial_state active_items simulate guarded_transitions_hold cycles_from
  check_state_semantics problem = initial_state evaluate problem.variables [] >>= λ initial.
      or_infeasible initial (λ state.
        active_items evaluate problem.horizon requirement_parts problem.requirements
        >>= λ requirements. or_infeasible requirements (λ rs.
          active_items evaluate problem.horizon update_parts problem.updates >>= λ updates.
          or_infeasible updates (λ us.
            simulate rs us (cycles_from 0 (suc problem.horizon)) state >>= λ simulation.
            or_infeasible simulation (λ s.
              guarded_transitions_hold problem s.before_cycles >>= λ holds.
              ok (if holds then feasible state s.final s.steps else infeasible)))))
