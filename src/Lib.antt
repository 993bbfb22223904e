-- ===== src/Lib.antt =====
-- gura is a compiler for a language whose objects live in regions, with a small runtime. This library
-- models the runtime's regions and the front end of the compiler.
--
-- Prelude.antt     the names that all modules share, Boolean tests and lists on native numbers
-- Basic.antt       include/gura/basic, src/basic/Diagnostic.cpp: positions, spans, diagnostics
-- Lexer.antt       include/gura/lexer, src/lexer/Lexer.cpp: the state and the basic operations;
--   Tokens.antt    the kinds, their names and the keywords; Scan.antt: the functions that make tokens;
--   Progress.antt  and Totality.antt: the characters that tokens take, and the ends of the loops;
--   Bounds.antt    and TokenBounds.antt: reads behind the end; Trivia.antt: white space and comments;
--   Keywords.antt  the names of the keywords; Words.antt: identifiers and keywords; Advances.antt and Positions.antt: lines and columns
-- Ast.antt         include/gura/ast: the syntax tree
-- Parser.antt      include/gura/parser/Parser.h, src/parser/Parser.cpp: the state and the basic operations;
--   Types.antt, Exprs.antt, Decls.antt: the functions for paths and types, for expressions, and for
--   declarations and the file; Source.antt: lexer and parser as src/driver/Driver.cpp calls them;
--   Runs.antt      the rules for parses that do not run out of fuel, used by Totality.antt (types),
--   ExprTotality.antt, MemberTotality.antt and DeclTotality.antt
-- Hir.antt         include/gura/hir/Capability.h and Type.h, the functions on types of src/hir/Sema.cpp;
--   Paths.antt     those on names and paths; Laws.antt: how types compare, and fields of a view
-- Sema.antt        include/gura/hir/Sema.h: the state of the semantic analysis and the actions on it;
--   Scopes.antt    scopes, suspension, open borrows; Types.antt: types and escapes; Names.antt:
--   resolveFunctionName; Rules.antt, Init.antt, Access.antt, Control.antt, Calls.antt: the checks of
--   single constructs; Exprs.antt: checkExpr, which ties them; Collect.antt and Functions.antt: the
--   tables; Decls.antt: declarations and check;
--   Outline.antt   scopes up to availability; Suspension.antt: suspended bindings; Keeps.antt with
--   Keeps/Slots.antt and Keeps/Regions.antt: rules for what actions leave as it is, used by
--   Effects.antt, Effects/Fields.antt, CallEffects.antt and Preservation.antt;
--   Quiet.antt     actions that only report; Setup.antt, Setup/Collects.antt, Setup/Functions.antt:
--   those on tables; Verdict.antt: declarations; Verdict/Clean.antt: check;
--   Moves.antt, Loops.antt, Escapes.antt, Generics.antt, Resolve.antt, Resolve/Collected.antt: moves,
--   loops, escapes, bounds, and names
-- Region.antt      include/gura/region, src/region: the region instructions and their verifier;
--   Matching.antt  the matched pairs that it looks for
-- Runtime.antt     runtime/include/gura/runtime: regions, headers and the store;
--   Ops.antt       runtime/src/Region.cpp, Freeze.cpp, Merge.cpp: the functions that compiled code calls;
--   Window.antt    the stack of regions and their phases, apart from the objects, and what opening
--   and closing a region does to them; Refine.antt: the functions against it; Calls.antt: the
--   functions as one type of calls, and histories of them; Failures.antt with
--   Failures/Unchanged.antt: calls that throw; Safety.antt and Safety/History.antt: histories;
--   Bridge.antt: calls in sequence; Closing.antt: exit; Nesting.antt: visits within visits
-- Tests.antt beside a module holds concrete runs and the theorems at concrete inputs.
--
-- How the code corresponds. The functions keep the source's names in snake case, a leading lex_, parse_
-- or the prefix __gura_region_ aside. The lexer and the parser pass their state on explicitly. The
-- runtime's functions run in a monad over a store, whose regions and headers are functions from
-- addresses to options: a call returns, throws, or is undefined where the source reads an object that
-- does not exist. The region stack has its back at the head of the list. The addresses that `new` and
-- `calloc` give are arguments of `new_iso`. Whether a vector gets the memory that it needs is a flag,
-- an argument of the functions that let one grow; without it they throw bad_alloc there.
--
-- The semantic analysis runs in a state monad. A construct's check takes the checks of its parts as
-- actions, and checkExpr hands them over, so a part is checked where and as often as in the source. A
-- report keeps the template of its message and what fills it. The unordered maps are lists in the order
-- of insertion. A BindingState pointer is a slot: the number of scopes below, and the name. The scopes
-- have the innermost at the head.
--
-- Bounds. Offsets, lines and columns wrap at 2^32 where the source casts them to 32 bits; the region
-- ids wrap at 2^64. Addresses, list lengths and node ids are natural numbers. The loops of the lexer
-- run for as many rounds as characters are left, which is enough since each takes one. The parser's
-- fuel is sixteen for each token and sixteen more, since at most that many calls are made between two
-- tokens. The depth of the region verifier is a natural number, which it is between rounds.
--
-- Not modelled: the code generation (src/codegen), which builds LLVM values, the module resolution
-- and the file handling of the driver, Cown.cpp (a mutex), the printing of types and of diagnostics,
-- the depth of the parser's recursion, and __gura_topology_assert, which does nothing. The region
-- stack is that of one thread.
pub mod Parser
pub mod Prelude
pub mod Ast
pub mod Basic
pub mod Lexer
pub mod Runtime
pub mod Region
pub mod Hir
pub mod Sema
