-- ===== src/Graph/Model.antt =====
-- What a graph model reads of a trace: the hint, projection and model specifications of
-- src/umcm/graph/model.py. Descriptions, the metadata of a model and its schema version, which the
-- program only carries along, are left out.
use Prim.Native.Char.{code}
use com_mcm.Prelude.{
  String, Bool, true, false, not, ◌&&◌, ◌||◌, Option, none, some, List, [], ◌∷◌, map, all, has,
  ◌==◌, text_eq_instance, nat_eq,
}
use com_mcm.Errors.{Result, ok, axiom_error, guard, ◌>>◌}
use com_mcm.Graph.Relation.{truthy}
use com_mcm.Graph.Checker.{AxiomSpec}
use com_mcm.Graph.Builder.{DerivedRelationSpec}
use com_mcm.Ir.Event.{repeats_name}

pub record RfHintSpec : Type 0 where
  pub event_type : String
  pub read_id_field : String
  pub write_id_field : String
  pub address_field : String
  pub value_field : String

-- A trace event that fixes one edge of the coherence order.
pub record CoHintSpec : Type 0 where
  pub event_type : String
  pub before_write_id_field : String
  pub after_write_id_field : String
  pub address_field : String

-- A trace event that contributes an edge of a relation.
pub record RelationHintSpec : Type 0 where
  pub name : String
  pub event_type : String
  pub source_id_field : String
  pub target_id_field : String

abbrev reserved : List String
reserved = "po" ∷ "rf" ∷ "rfi" ∷ "rfe" ∷ "co" ∷ "fr" ∷ "fri" ∷ "fre" ∷ "ppo" ∷ "gmo" ∷ []

-- `name.startswith(prefix)`
unfoldable starts_with : String → String → Bool
starts_with s String.[] = true
starts_with String.[] (String.◌∷◌ d p) = false
starts_with (String.◌∷◌ c s) (String.◌∷◌ d p) = code c == code d && starts_with s p

-- The tests of `__post_init__`.
unfoldable pub make_relation_hint : RelationHintSpec → Result RelationHintSpec
unfolding has starts_with
make_relation_hint hint =
    guard (truthy hint.name) axiom_error
    >> guard (not (has hint.name reserved || starts_with hint.name "ppo_rule")) axiom_error
    >> ok hint

pub record ProjectionSpec : Type 0 where
  pub init_write_event : String
  pub load_event : String
  pub store_event : String
  pub load_commit_event : String
  pub id_field : String
  pub address_field : String
  pub value_field : String
  pub hart_field : String
  pub program_index_field : String
  pub require_committed_loads : Bool
  pub amo_event : Option String
  pub lr_event : Option String
  pub sc_event : Option String
  pub write_value_field : String
  pub metadata_fields : List (String × String)
  pub rf_hints : List RfHintSpec
  pub co_hints : List CoHintSpec
  pub relation_hints : List RelationHintSpec

pub record GraphModelSpec : Type 0 where
  pub model : String
  pub projection : ProjectionSpec
  pub derived_relations : List DerivedRelationSpec
  pub axioms : List AxiomSpec
  pub builtin_model : Option String
  pub ppo_rules : List String

-- `event_type == name` for a name that may be None
abbrev pub is_named : Option String → String → Bool
is_named none t = false
is_named (some name) t = t == name

abbrev known_model : Option String → Bool
known_model none = true
known_model (some name) = name == "rvwmo"

-- The tests of `__post_init__`.
unfoldable pub model_is_valid : GraphModelSpec → Bool
unfolding all repeats_name
model_is_valid spec =
    truthy spec.model
    && known_model spec.builtin_model
    && all (λ rule. rule == "load_load_different_write") spec.ppo_rules
    && not (repeats_name (map (λ d. d.name) spec.derived_relations))
    && not (repeats_name (map (λ a. a.name) spec.axioms))

unfoldable pub make_model : GraphModelSpec → Result GraphModelSpec
unfolding model_is_valid
make_model spec = guard (model_is_valid spec) axiom_error >> ok spec
