-- ===== src/Lib.antt =====
-- blazerules: a model of the core of the rule engine, with the properties that make its parts
-- correct.
--
-- A rule file is compiled to a sequence of kernel operations per rule
-- (src/compiler/compiler.cpp), of which the engine evaluates the predicates to bitmasks over a
-- morsel of rows. `evaluate_rules` of src/core/orchestrator.cpp then evaluates the expression
-- of every rule over these masks and reduces the rules that match a row to one decision.
-- Lookup sets of addresses are normalized when the rules are loaded and searched for every
-- row. Window counters (src/core/window_store.cpp) keep the running total of an entity, which
-- predicates read.
--
-- Bitmask models include/blazerules/bitmask.h and the mask helpers of
-- src/core/orchestrator.cpp and src/core/kernels.cpp: a buffer is a list of bytes, a word of
-- four or eight bytes is put together and taken apart as `memcpy` does on a little-endian
-- machine, and a loop that clears the lowest set bit runs on fuel, the width of the word.
-- Bitmask.Drain is that loop; Bitmask.Find, Bitmask.Count and Bitmask.Rowwise see the
-- operations row by row.
--
-- Kernels models the scalar kernels of src/core/kernels.cpp for numbers, ranges and
-- dictionaries, and in Kernels.Zones the zone maps of src/core/orchestrator.cpp;
-- Kernels.Predicate is the numeric part of `eval_predicate`, of which a column is the list of
-- the values in the morsel. The comparisons of an element type are a parameter, and so is
-- `cast`, the conversion of a `double` constant to it, which every kernel applies and no zone
-- map does; Kernels.Rows gives the bit of a row and Kernels.Meaning what it means,
-- Kernels.Bounds the bounds that a zone holds, and Kernels.Decide compares the two on columns
-- without nulls and NaN (`IsOrder`) whose element type `double` keeps in order (`IsWidened`)
-- and constants that are values of that type (`IsExact`). Kernels.Choice puts them together;
-- it assumes that a column without nulls has only valid rows (`CountsNulls`). Kernels.Negate
-- compares the inverted operators of Compile with the complement of a mask.
--
-- Expr models `ExprEvaluator` of src/core/orchestrator.cpp as a state monad over its scratch
-- space: the cache of node masks and the vector of survivors, which the nested calls share as
-- in the source. The fuel of `eval` is the index of the root and one more, enough because a
-- node comes after its children. Expr.Truth gives the meaning of an expression for a row,
-- Expr.Loops and Expr.Select the loops, Expr.Kinds one node of each kind, Expr.Correct the
-- rule.
--
-- Compile models `invert_op` and `CompileVisitor` of src/compiler/compiler.cpp. The columns
-- and constants of a predicate are a parameter; the channels that window, model, vector and
-- array predicates register are left out. Compile.Meaning runs the operations on registers;
-- Compile.Keeps is about the registers that earlier operations have written, Compile.Correct
-- about the register of a condition and Compile.Negate about `invert_op`.
--
-- GlobalPlan models `build_global_plan` of src/compiler/compiler.cpp for a list of rules, but
-- not the order in which the predicates are evaluated: a register that was never written is
-- `none`, where the source has -1. Whether two predicates have one key is a parameter, and
-- `std::sort` is an insertion sort. GlobalPlan.Dense is about the order of the registers,
-- GlobalPlan.Built and GlobalPlan.Build what the builder has after some operations, Expr.Order
-- the orders that its nodes record, GlobalPlan.Correct what the plan of one rule computes, and
-- GlobalPlan.Rules what the plans of all rules compute from the masks of their predicates.
--
-- Reduce models the reduction of one morsel: the rank tables, `RuleReduce`, the loop over
-- rules, bytes and bits, and the choice of the winner. The arithmetic of scores is a
-- parameter, `Floats`. Reduce.Rows turns the loops into a fold per row, Reduce.Winner and
-- Reduce.Order say who wins.
--
-- Lookup models the IPv4 sets: `parse_ipv4`, `parse_cidr`, `add_cidr_range` and
-- `normalize_ranges` of src/compiler/compiler.cpp, `parse_ipv4_fast` and `ipv4_ranges_contain`
-- of src/core/orchestrator.cpp. Addresses are below 2 ^ 32 and sums wrap as `uint32_t` does.
-- `std::sort` is an insertion sort and `std::upper_bound` a scan, which give the same results.
--
-- Window models `EntityCounter`, `add_bucket` and `advance_and_zero` of
-- src/core/window_store.cpp and the update of one counter in `update_all_channels`. The
-- arithmetic is a parameter, `Amounts`; the theorem assumes that it rounds nothing
-- (`IsExact`).
--
-- Schema models `BlazeRulesSchema` of include/blazerules/schema.h and src/compiler/schema.cpp.
-- A hash map is an association list.
--
-- Dict models `DictEncoder` of src/core/dict_encoder.cpp: a column is its dictionary and its
-- reverse table, and `encode_batch` is modelled for columns of strings and for columns that
-- come with a dictionary. Dict.Stable has the operations of an encoder as steps.
-- `max_dict_size_per_column` is not negative.
--
-- Conflict models `analyze_conflicts` of src/compiler/conflict.cpp over the conditions of
-- Compile. Numbers are a parameter with an order, `Numbers`, of which the theorems assume that
-- it is total (`IsOrdered`), so a NaN is left out. Conflict.Intervals is about the values of
-- intervals, Conflict.Collect about the constraints of a rule, Conflict.Analyze and
-- Conflict.Report about the report, for rows that have one number and one text per field and
-- whose predicates compare them with the constants as written (`Respects`): an array field, or
-- a constant that is rounded to the type of its column, is outside of it.
--
-- Sql models the lexer and the parser of src/compiler/sql_expr_parser.cpp. A text is the list
-- of its bytes; the rest of it and the current token are the state of the parser, and an
-- exception is an error value. The fuel of a loop is the length of the rest and one more,
-- since every turn takes a token; what is left of kMaxDepth bounds the descent. Sql.Words,
-- Sql.Keys and Sql.Print are the texts that Sql.RoundTrip reads back, with Sql.Leaves,
-- Sql.Members, Sql.Reads and Sql.Chains for its steps; Sql.Measure and Sql.Total count the
-- text that is left; Sql.Depth is about the depth guard.
--
-- Sql.AnyMatch models the rest of src/compiler/sql_expr_parser.cpp, from `trim` to
-- `parse_any_match_call` and `parse_sql_expression`. Sql.AnyMatch.Trim and Sql.AnyMatch.Call
-- take a call apart, Sql.AnyMatch.Alias is about the prefixes of the alias and the whole,
-- Sql.AnyMatch.Fields about fields whose names start like a call. The fuel of `strip_from` is
-- the length of the body.
--
-- Prelude holds what the others share: Boolean tests, lists over the native numbers, bits,
-- integers, and the splits on conditionals.
--
-- Not modelled: the SIMD and NEON paths, Arrow and JSON input, brokers and files, the YAML
-- parser, the dashboard, the command line and the bindings. The arena that the masks come from
-- always has room here.
pub mod Prelude
pub mod Bitmask
pub mod Kernels
pub mod Expr
pub mod Compile
pub mod GlobalPlan
pub mod Reduce
pub mod Lookup
pub mod Window
pub mod Schema
pub mod Dict
pub mod Spec
pub mod Conflict
pub mod Sql
