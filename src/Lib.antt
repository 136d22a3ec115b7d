-- ===== src/Lib.antt =====
-- Verification of the core of umcm, a tool that composes microarchitectural traces and checks
-- them against memory models.
--
-- The program's parts and the files about them (paths from the repository's root):
--   src/umcm/graph/relation.py    Graph/Relation, Graph/Cycle
--   src/umcm/graph/execution.py   Graph/Execution
--   src/umcm/graph/checker.py     Graph/Checker
--   src/umcm/graph/model.py       Graph/Model (also AxiomSpec in Graph/Checker and
--                                 DerivedRelationSpec in Graph/Builder)
--   src/umcm/graph/builder.py     Graph/Projection (the operations of a trace), Graph/Hints,
--                                 Graph/Candidates (the choices for rf and co), Graph/Enumeration
--                                 (the loop over them), Graph/Builder (the relations of one
--                                 candidate)
--   src/umcm/graph/rvwmo.py       Graph/Rvwmo: Footprint, Validate, Ppo, Complete, Checks;
--                                 Sources, Rules, Preserved, Communication and Order are about
--                                 these
--   src/umcm/ir/sort.py           Ir/Sort
--   src/umcm/ir/expression.py     Ir/Expression
--                                 (the dict codecs of both: Ir/Codec)
--   src/umcm/ir/event.py          Ir/Event
--   src/umcm/ir/trace.py          Ir/Trace; Solver/Evaluator/Traces is about what the evaluator
--                                 reads of a trace
--   src/umcm/solver/evaluator.py  Solver/Value, Solver/Evaluator
--   src/umcm/solver/finite.py     Solver/Finite
--   src/umcm/solver/state.py      Solver/State, over the instances of Solver/Problem
--                                 (src/umcm/solver/problem.py, src/umcm/ir/state.py)
--   src/umcm/errors.py            Errors
-- Prelude holds Python's equality, order, sets and integers, and the lemmas that the parts share;
-- Tests holds runs of the definitions on small inputs.
--
-- How they interact: constraints are expressions (Ir/Expression) over event fields and symbols. The
-- finite solver (Solver/Finite) assigns values to the symbols and asks the evaluator
-- (Solver/Evaluator) for the three-valued result of each constraint, to prune and to accept. The
-- state semantics (Solver/State) simulates the cells that a problem declares, cycle by cycle, under a
-- complete assignment, which the solver accepts only if the simulation is feasible.
-- Events and traces (Ir/Event, Ir/Trace) are checked against a catalog of schemas. The builder projects
-- the events of a trace to memory operations, lists the writes each read can read from and the
-- orders of the writes to each address, and yields a graph for each choice.
-- A candidate execution graph (Graph/Execution) holds memory operations and relations
-- (Graph/Relation). Graph/Rvwmo completes it with program order, preserved program order, the
-- relations of reads and writes between harts and a global order, and checks the RVWMO axioms.
-- Graph/Checker checks further axioms and sums up the candidates; the cycle search (Graph/Cycle)
-- decides those that ask for acyclicity.
--
-- Correspondence. A frozen dataclass is a record or a data type, its `__post_init__` a Boolean test
-- with `make` around it. An exception is a value of Errors.Result, without its text. A frozenset or
-- a set is a list of its members, of which only membership is used; where the program iterates over
-- a set, the list is one order of it. A dict is a function to Option where only lookups matter.
-- `find_labeled_cycle.dfs` changes `color`, `stack` and `position`: these are the record
-- Cycle.State, passed along, and Cycle.Outcome says whether the call returned, found a cycle or
-- raised. The built-in check and the candidates of a trace are arguments of the checker; the
-- generator that yields them is a list. `repr`, by which hints and addresses are sorted, is an
-- argument, as is the check of a complete assignment in solve_finite, which may raise:
-- Solver/Finite/Machine gives it the check of the state semantics. Ir/Conversion holds Python's `str`
-- and `int` of scalars. The counters that the nested functions of `solve_finite` share are the
-- record Progress.
--
-- Bounds. `dfs` takes its depth as fuel, the number of listed nodes, which is enough since each
-- nested call colours a white node; `walk`, the loop of transitive_closure, takes as many rounds as
-- edges can be pushed, since an edge is pushed when its source is marked, at most once.
-- `evaluate` follows expressions in event fields; its depth stands for Python's recursion limit,
-- and running out of it raises RecursionError as there.
-- The rounds of the topological order are as many as the nodes, since a node becomes ready at most
-- once; `set_bits` takes the mask itself, which has fewer bits than that. Integers are unbounded,
-- as in Python.
-- A Python value is a bool, an int, a str or None; floats are left out, and a value of an operation's
-- metadata is one of these or a sequence of them.
--
-- Not modelled: printing and parsing (cli.py, serialization.py, the to_dict and from_dict codecs but
-- those of sorts and expressions), the SMT binding (solver/z3ctypes.py), the composition, hierarchy,
-- search and coverage engines, the transformation of traces (ir/transformation.py), the compilation of
-- a problem into constraints (the rest of solver/problem.py) and the variables and domains that
-- solve_finite builds from it (_build_variables, _domain_for), which are its argument here. Nor is
-- Python's recursion limit in the nested functions of find_labeled_cycle and solve_finite.
mod Prelude
pub mod Errors
pub mod Ir
pub mod Graph
pub mod Solver
mod Tests
