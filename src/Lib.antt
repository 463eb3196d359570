-- ===== src/Lib.antt =====
-- watts: abstract interpretation of LLVM programs with threads.
--
-- The program is an LLVM pass. It keeps, for each basic block, a fact about the program's variables
-- (an abstract value of the Apron library), and runs the blocks' transfer functions from a worklist
-- until the facts stop growing; on the way it puts down the assertions that can fail, and the facts
-- after each store and at each thread creation.
--
-- The parts and their files:
--  - Prelude: Boolean tests, outcomes of code that may abort, integers over the native numbers, and
--    `std::map` and `std::set` with pointer keys (Prelude/Map).
--  - Apron: the interface of the Apron library, which is a parameter of every definition that calls
--    it; Apron/Laws says what Apron documents of it, and Apron/Reachability is an instance.
--  - Llvm: the view of LLVM's values, instructions and blocks; Llvm/Const is
--    worklist-ai/utils.cpp.
--  - LatticeFact: worklist-ai/latticefact.cpp, with Constr (`createSubConstr`), Query (`isEq` and its
--    kin), Assign (assignments and comparisons), Meet (`meetEq` and its kin) and Constrain
--    (`constrainTF`). The `Sound` module below each has its proofs.
--  - BbOps: worklist-ai/bbops.cpp, with Assign (`performAssign` and its kin) and Transfer
--    (`transfer_func` and `run_transfer_funcs`).
--  - Worklist and Analysis: `analyzeFunc` of worklist-ai/worklistai.cpp. Worklist is the loop over any
--    transfer of a block, and Analysis puts in that of BbOps.
--  - CartesianProduct: worklist-ai/cartesianprod.h and the loop of `analyzeThreadInterf` over the choices
--    of the loads; its permutations are numbers in a mixed base (Value).
--  - Reachability: `forwardDfs` of worklist-ai/worklistai.cpp.
--  - Interference: `mergeFactMaps` and `joinInterfs` of worklist-ai/worklistai.cpp; Stores has
--    `getInterferingStores`, `flattenReachStores` and `stableStores`.
--  - Choices: how `testCurPerm` of worklist-ai/worklistai.cpp turns a permutation into interferences;
--    Explore uses it.
--  - Horn: facts, Horn rules and what they derive, as utils/z3_fp_helpers.cpp hands them to Z3's fixed
--    points; two sets of rules are compared by evaluation (Compare, Subsume).
--  - Constraints: the rules of worklist-ai/worklistai.cpp on must-happen-before, and those of each
--    memory model (Reorder, Pruning); Runs and Executions read them as claims on a run, Weak compares
--    them.
--  - Solver: the numbers of values, their literals (Hex) and the facts about values, of
--    utils/z3_fp_helpers.cpp.
--  - ProgOrder: `violatesProgOrder` and `filterMHBInterfs` of worklist-ai/worklistai.cpp, which ask the
--    solver whether reads are feasible.
--  - Facts: the dominance, load, store and fence facts that worklist-ai/worklistai.cpp reads off the
--    instructions, the rules at the creation of a thread (Create) and the facts on instructions that do
--    not reach each other (NotReach).
--  - Args: `checkCommandLineArgs`.
--  - Threads: the tree of threads, `sortByCreation`, `getParents` and `getParentNotRead`.
--  - ValToStrDb: utils/ValToStrDB.cpp, the data base of identifiers (WellFormed, Ids, Found, Distinct,
--    Compare), its texts (Texts), and its dump to and parse from metadata (Metadata, RoundTrip).
--  - Explore: `analyzeThreadInterf` and `testCurPerm` of worklist-ai/worklistai.cpp, which put Analysis,
--    Choices, CartesianProduct, Interference and ProgOrder together, with the cache of permutations
--    (Cache).
--  - Driver: the rounds of `runOnModule` in worklist-ai/worklistai.cpp, with Explore for
--    the analysis of a thread.
--  - Examples: concrete programs that the theorems are applied to.
--
-- State and operations. A method of the source is a function on facts that returns a `Result`: `err`
-- is a failed assertion, an exit, or behaviour that C++ leaves undefined. Reference parameters that
-- collect results are the record `Books`. Pointers are numbers and names of variables are numbers,
-- since the source only compares them; maps with pointer keys are lists in ascending order. Flags of
-- the command line are arguments. The C++ `int` of a constraint keeps its overflow (`neg_int`).
--
-- Bounds and fuel. The worklist loop takes fuel and is `none` when that is used up. The weight of
-- the entry block is enough for a function without cycles; with cycles the source has no bound, since
-- it neither widens nor joins. The loop over the permutations takes one more than their number, and
-- `forwardDfs` as much fuel as there are edges. The loops over the tree of threads take as much fuel as
-- the tree has threads, and `getParents` as much as the thread is deep.
--
-- Z3 is a parameter: the query of its fixed points is a function whose true answers are assumed to be in
-- the least model of the rules. The numbers of values are read off `getValueBVIDSz`; its guard, a quotient
-- of logarithms in doubles, is exact but for 2^29 and 2^31 (`exceeds`), and the numbers are `unsigned`s.
-- A concrete step of an instruction, in the theorems on the transfer functions, is exact: arithmetic that
-- wraps around, a cast that changes the number, comparisons with the constant -2^31, phi nodes, exclusive
-- or and atomic instructions have none. A run of the analysed program, in the theorems on the
-- constraints, gives each instruction one time or none, so they say nothing of loops.
--
-- The stores that `getPreviousStoresWithCreate` finds before a load are an argument of Explore, and its
-- theorems hold whatever they are.
--
-- Not modelled: Apron, LLVM and Z3 themselves, debug output, the facts on joins
-- and on the stores before the creation of a thread, and the stores that
-- reach a block.
pub mod Prelude
pub mod Apron
pub mod Llvm
pub mod LatticeFact
pub mod BbOps
pub mod Worklist
pub mod Analysis
pub mod CartesianProduct
pub mod Reachability
pub mod Interference
pub mod Choices
pub mod Horn
pub mod Constraints
pub mod Solver
pub mod ProgOrder
pub mod Facts
pub mod Args
pub mod Threads
pub mod ValToStrDb
pub mod Explore
pub mod Driver
pub mod Examples
