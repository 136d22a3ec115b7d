-- ===== src/Graph/Rvwmo/Ppo.antt =====
-- The thirteen rules of preserved program order: `derive_ppo` of src/umcm/graph/rvwmo.py.
use com_mcm.Prelude.{
  lookup, String, Bool, true, false, not, ◌&&◌, ◌||◌, Option, none, some, List, [], ◌∷◌, ◌++◌, ℕ,
  zero, suc, if◌then◌else◌, ◌==◌, text_eq_instance, pair_eq, filter, map, has, any,
}
use com_mcm.Errors.{Result, ok, err, key_error, ◌>>=◌, ◌>>◌}
use com_mcm.Graph.Relation.{Relation, Edge, from_edges, union_relations}
use com_mcm.Graph.Execution.{MemoryOperation, is_read, is_write, atomic_kind}
use com_mcm.Graph.Rvwmo.Footprint.{
  footprint, holds, meets, overlap, regular, is_one_of, acquire, release, rcsc,
}
use com_mcm.Graph.Rvwmo.Validate.{
  Operations, values, and_also, relation_or_empty, between, validate_input_edges,
}

-- The relations that the front-end supplies.
pub record Inputs : Type 0 where
  pub addr : Relation
  pub data_dependency : Relation
  pub ctrl : Relation
  pub fence : Relation
  pub pair : Relation
  pub pipeline : Relation

-- `mapping[key]`
abbrev pub or_key_error {ℓ} : {A : Type ℓ} → Option A → Result A
or_key_error none = err key_error
or_key_error (some a) = ok a

-- `any(...)` where a test may raise.
unfoldable pub any_of {ℓ} : {A : Type ℓ} → (A → Result Bool) → List A → Result Bool
any_of test [] = ok false
any_of test (x ∷ xs) = test x >>= λ b. (if b then ok true else any_of test xs)

module _ (operations : Operations) (inputs : Inputs) (sources : List (String × String)) where
  -- `rf_sources[read_id]`
  abbrev pub source_of : String → Result String
  source_of read_id = or_key_error (lookup read_id sources)

  -- A store between two loads, to bytes that both read.
  unfoldable pub intervening : MemoryOperation → MemoryOperation → Result Bool
  unfolding any_of footprint between meets holds filter any
  intervening source target =
      any_of
        (λ middle. and_also (is_write middle && between source middle target) (
          footprint source >>= λ xs. footprint target >>= λ ys.
          footprint middle >>= λ zs. ok (meets (filter (λ x. holds x ys) xs) zs)))
        (values operations)

  unfoldable pub same_address_loads :
      String → String → MemoryOperation → MemoryOperation → Result Bool
  unfolding intervening overlap
  same_address_loads source_id target_id source target =
      and_also (is_read source && is_read target) (
        overlap source target >>= λ meeting. and_also meeting (
          intervening source target >>= λ hidden.
          and_also (not hidden)
            (source_of source_id >>= λ a. source_of target_id >>= λ b. ok (not (a == b)))))

  unfoldable pub pipeline_load : String → String → MemoryOperation → MemoryOperation → Result Bool
  unfolding any_of between lookup
  pipeline_load source_id target_id source target = and_also (is_read target) (
      any_of
        (λ middle. and_also (is_write middle && between source middle target) (
          source_of target_id >>= λ written. ok (
            written == middle.id
            && (has (source_id, middle.id) inputs.addr.edges
                || has (source_id, middle.id) inputs.data_dependency.edges))))
        (values operations))

  unfoldable pub pipeline_store : String → String → MemoryOperation → MemoryOperation → Bool
  unfolding any between
  pipeline_store source_id target_id source target =
      is_write target
      && (has (source_id, target_id) inputs.pipeline.edges
          || any
              (λ middle.
                between source middle target && has (source_id, middle.id) inputs.addr.edges)
              (values operations))

  -- Which of the thirteen rules hold of one edge, in their order.
  unfoldable pub rules_of : Edge → Result (List Bool)
  unfolding regular overlap same_address_loads pipeline_load pipeline_store acquire release rcsc
      atomic_kind is_one_of lookup
  rules_of (source_id, target_id) = or_key_error (lookup source_id operations) >>= λ source.
      or_key_error (lookup target_id operations) >>= λ target.
      (if not (regular source && regular target)
        then ok []
        else (and_also (is_write target) (overlap source target) >>= λ r1.
            same_address_loads source_id target_id source target >>= λ r2.
            and_also (is_one_of ("amo" ∷ "sc" ∷ []) (atomic_kind source) && is_read target)
              (source_of target_id >>= λ written. ok (written == source_id))
            >>= λ r3. pipeline_load source_id target_id source target >>= λ r12. ok (
                r1
                ∷ r2
                ∷ r3
                ∷ has (source_id, target_id) inputs.fence.edges
                ∷ acquire source
                ∷ release target
                ∷ (rcsc source && rcsc target)
                ∷ has (source_id, target_id) inputs.pair.edges
                ∷ has (source_id, target_id) inputs.addr.edges
                ∷ (is_write target && has (source_id, target_id) inputs.data_dependency.edges)
                ∷ (is_write target && has (source_id, target_id) inputs.ctrl.edges)
                ∷ r12
                ∷ pipeline_store source_id target_id source target
                ∷ [])))

  -- The loop over the edges of po.
  unfoldable pub rules_of_all : List Edge → Result (List (Edge × List Bool))
  unfolding rules_of
  rules_of_all [] = ok []
  rules_of_all (edge ∷ edges) =
      rules_of edge >>= λ bits. rules_of_all edges >>= λ rest. ok ((edge, bits) ∷ rest)

-- Whether rule `n`, counted from 0, holds.
unfoldable pub bit : ℕ → List Bool → Bool
bit n [] = false
bit zero (b ∷ bs) = b
bit (suc n) (b ∷ bs) = bit n bs

-- `rules[n]`
unfoldable pub rule_edges : ℕ → List (Edge × List Bool) → List Edge
unfolding bit
rule_edges n items = map (λ item. item.0) (filter (λ item. bit n item.1) items)

abbrev pub rule_names : List String
rule_names =
    "ppo_rule1" ∷ "ppo_rule2" ∷ "ppo_rule3" ∷ "ppo_rule4" ∷ "ppo_rule5" ∷ "ppo_rule6" ∷ "ppo_rule7"
    ∷ "ppo_rule8" ∷ "ppo_rule9" ∷ "ppo_rule10" ∷ "ppo_rule11" ∷ "ppo_rule12" ∷ "ppo_rule13" ∷ []

unfoldable pub name_rules : ℕ → List String → List (Edge × List Bool) → Result (List Relation)
unfolding rule_edges from_edges
name_rules n [] items = ok []
name_rules n (name ∷ names) items = from_edges name (rule_edges n items) >>= λ r.
    name_rules (suc n) names items >>= λ rs. ok (r ∷ rs)

unfoldable pub inputs_of : List (String × Relation) → Result Inputs
unfolding relation_or_empty
inputs_of relations = relation_or_empty relations "addr" >>= λ addr.
    relation_or_empty relations "data" >>= λ data_dependency.
    relation_or_empty relations "ctrl" >>= λ ctrl. relation_or_empty relations "fence" >>= λ fence.
    relation_or_empty relations "pair" >>= λ pair.
    relation_or_empty relations "pipeline" >>= λ pipeline. ok (record {
      addr = addr;
      data_dependency = data_dependency;
      ctrl = ctrl;
      fence = fence;
      pair = pair;
      pipeline = pipeline;
    })

unfoldable pub validate_inputs : Relation → Operations → Inputs → Result (Unit {0})
unfolding validate_input_edges
validate_inputs po operations inputs =
    validate_input_edges inputs.addr po operations
    >> validate_input_edges inputs.data_dependency po operations
    >> validate_input_edges inputs.ctrl po operations
    >> validate_input_edges inputs.fence po operations
    >> validate_input_edges inputs.pair po operations
    >> validate_input_edges inputs.pipeline po operations

unfoldable pub derive_ppo :
    Operations → List (String × Relation) → List (String × String) → Result (List Relation)
unfolding relation_or_empty inputs_of validate_inputs rules_of_all name_rules union_relations
derive_ppo operations relations sources = relation_or_empty relations "po" >>= λ po.
    inputs_of relations >>= λ inputs.
    validate_inputs po operations inputs
    >> (rules_of_all operations inputs sources po.edges >>= λ items.
        name_rules 0 rule_names items >>= λ named.
        union_relations "ppo" named >>= λ ppo. ok (named ++ (ppo ∷ [])))
