-- ===== src/Lib.antt =====
-- Verification of the read-only diagnosis server for low-code applications (mcp/gxp_core).
--
-- The program reads an application's published designs, its database schema and its source, and answers
-- questions about them. Modelled here are six of its parts:
--
--   Condition    conditions of a design (mcp/gxp_core/canvas.py). Text: `_compact`, `_literal`, the names
--                that `_resolve_operand` cuts out of an operand. Ast, Build: `condition_ast` and its tree.
--                Evaluate: `_resolve_operand` and `evaluate_condition_ast`, in three states. Meaning: a
--                two-state reading of a tree.
--   ControlFlow  `ControlFlowAnalyzer` of mcp/gxp_core/canvas.py. Node: the classes of elements. Replay,
--                with State: the loop of `analyze_group` over the nodes, whose state is the lists `warnings`,
--                `metadata`, `blocks` and the stack of open blocks. Group: the rest of `analyze_group`, and
--                `analyze`. Grammar: well-nested sequences of markers. Nesting, with Views: the analysis against
--                the grammar. Scenario: `_scenario_items` and `_evaluate_scenarios`, which evaluate the
--                conditions of the branches that the analysis found. Branches: the states of a chain.
--   Policy       decisions on relations between tables (mcp/gxp_core/relation_policy.py). Document: the JSON
--                document and `_read_unlocked`, which migrates it. Store: `create_scope`, `reject`, `restore`.
--                Snapshot: `snapshot`, `RelationPolicyClient.sync` of mcp/gxp_core/policy_client.py, and
--                `_policy_allows` of mcp/gxp_core/schema_snapshot.py, which reads the synchronised policy.
--                Consistent, Files: the document's invariant. Lookup, Listed, Stale: what a decision does
--                to relations validated before it. Attempts: `_apply_current_policy` and
--                `_candidate_resolution` of mcp/gxp_core/schema_snapshot.py. Verdict: their verdict.
--   Graph        mcp/gxp_core/business_graph_algorithms.py. Adjacency: `project` and `adjacency`. Search: the
--                loop of `components` from a root. Components: `components`. Reachable, Undirected,
--                Partition: what it finds. Paths: `paths`. Trails, Routes: what its answers are.
--                Neighborhood: `neighborhood`. Around: its loop.
--   Handoff      the local store of design evidence (mcp/gxp_core/handoff_store.py). Host: its errors and
--                tests. Finite: `_finite` and the canonical bytes. Targets, Snapshots, Compare:
--                `normalize_targets`, `snapshot_targets`, `compare_targets`. Diagnosis, ChangeSpec, Record:
--                `_validate_diagnosis`, `validate_change_spec`, `HandoffStore._validate`. Summary, Store, Page:
--                `summary`, `write` and `read`, `list_page` and `list`. Clean, Chosen: what the checks let
--                pass. Ordered: the order of keys that the encoder writes. Verified, Written, Errors: what `read`
--                and `write` do. Scan, Budget, Limits, Cursor, Ids, Turn: one page. Listing, Answers: all pages.
--                Newest: their order.
--                Environment: `environment_scope`.
--   Lexer        the lexer of the source index (mcp/gxp_core/source_lex.py). Chars: texts as lists of codes.
--                Ends, Template: `QUOTED`, `_regex_end`, `_template_end`. Source: `LexedSource.__init__`. Pairs:
--                `pairs`, `string_value`, `expression_end`, `split_arguments`, on any tokens. Blank: the
--                blanked texts. Ahead, Arguments: the loops over tokens.
--
-- Prelude, Json, Dict, Texts and Outcome hold what these share: Booleans, lists and integers, JSON values with
-- Python's tests on them, dictionaries as association lists in insertion order, the order of texts, and the
-- outcome of a call that may raise.
--
-- Records stand for Python's dictionaries with fixed keys, and a missing key is `none`. A function that
-- raises returns a result type, and an operation on a file returns the file too. The block that the source
-- shares between the list of blocks and the stack is a position in that list here. Character classes,
-- changes of case, `str()` of a value and floating-point numbers are Python's, and the fields of `Runtime`
-- in Json. The clock is an argument. The JSON encoder and decoder and SHA-256 are fields of `Host` in
-- Handoff.Host, the store's folder is a dictionary of its files, and the token and the time that `write` takes
-- are arguments. The decoder fails with a JSONDecodeError (a RecursionError, which `read` treats alike, stands
-- with it) or with the ValueError for an integer of more than 4300 digits. A text with a lone surrogate, which
-- UTF-8 cannot encode, is one that `encodable` in `Runtime` does not hold of.
--
-- The search takes fuel. `components` gives each search one unit for its root and one for each link, and
-- `neighborhood` its loop one for each seed and link. `paths` makes at most 5000 visits, as the source does,
-- and the clock is a test that it makes before each of them. `list` has fuel for one page more than there are
-- files, the lexer for one piece more than there are characters, and `split_arguments` for one turn more than
-- there are positions. `expression_end` takes its fuel as an argument. Every other definition recurs on its
-- data.
--
-- Not modelled: locks and atomic replacement of files, message texts, the rendering of trees and graphs,
-- SQL, the regular expression of words and the rest of the source analysis, the business graph's storage, the
-- folder of the hand-off store, process control and the service layer. `_literal` is modelled for integers of at
-- most 4300 digits, beyond which Python's `int` raises a ValueError.
pub mod Prelude
pub mod Json
pub mod Dict
pub mod Outcome
pub mod Texts
pub mod Policy
pub mod Graph
pub mod Condition
pub mod ControlFlow
pub mod Lexer
pub mod Handoff
