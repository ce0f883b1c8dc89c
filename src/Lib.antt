-- ===== src/Lib.antt =====
-- regalloc2: a register allocator, and this library, which models its data types and several of its
-- components and proves them correct.
--
-- The allocator (src/ion/mod.rs) reads a client's function (src/lib.rs, the trait `Function`) and
-- gives back an `Output`: an allocation for each operand of each instruction, and the moves to insert
-- (`Edit`). On the way it computes a postorder (src/postorder.rs), a dominator tree
-- (src/domtree.rs), the tables of blocks and definitions (src/cfg.rs) and sets of live registers
-- (src/bitvec.rs), may validate the function (src/ssa.rs), gives the bundles of ranges of code to
-- registers or to spill slots (src/ion/mod.rs), and turns the moves at one place, which mean a parallel
-- assignment, into a sequence (src/moves.rs). The checker (src/checker.rs) follows symbolic values
-- through the output and reports the operands that do not find their register.
--
-- Files, and the code that each is about:
--   Prelude   what the modules share: Boolean tests, fallible code, lists by number, and `|`, `&`,
--             `<<`, `>>` as arithmetic on numbers.
--   Reg       src/lib.rs: RegClass; Reg/PReg, Reg/VReg and Reg/SpillSlot the registers and slots.
--   Operand   src/lib.rs: Operand with its policy, kind and position, packed in a word.
--   Alloc     src/lib.rs: Allocation, packed in a word.
--   Index     src/index.rs: define_index!, once for all index types; Index/InstRange the ranges of
--             instructions and their iterator.
--   ProgPoint src/lib.rs: InstPosition and ProgPoint.
--   Moves     src/moves.rs: ParallelMoves, with the slice methods it calls. Moves/Semantics says what
--             parallel and sequential moves do to the contents of the allocations; Search, Emit,
--             Stack, Drain, Cycle, Round and Loop carry the proof, and Correct has the result.
--   Function  src/lib.rs: the trait Function as a record, Edit, Output and RegAllocError.
--   Postorder src/postorder.rs; Postorder/Blocks, Ends, Kept and Once about what it returns.
--   Domtree   src/domtree.rs; Domtree/Ancestors about `dominates`.
--   Cfg       src/cfg.rs.
--   Ssa       src/ssa.rs; Ssa/Defs, Checks and Single about the definitions of a function.
--   Checker   src/checker.rs: Value and State the abstract states and their transfer, Check the check
--             of operands, Run the passes; Meet, Transfer, Sound, Edits, Errors
--             and Stuck have the proofs.
--   BitVec    src/bitvec.rs; BitVec/Sets and BitVec/Combine read it as a set of numbers; BitVec/Iter
--             the iterator, with Zeros, Items and Order about it.
--   Ion       src/ion/mod.rs: Range (CodeRange), Key (LiveRangeKey), Props (the packed words
--             of LiveRange and LiveBundle), Requirement; Overlap has proofs.
--             Ion/Env the structs, the part of `Env` that is read, and the loops over linked lists;
--             Ion/Btree the sets of ranges, with Disjoint and Search about them;
--             Ion/Bundle ranges and bundles, their requirement, priority and weight, with Satisfied
--             and Required about the requirement;
--             Ion/Setup what `init` sets up, with the hot code;
--             Ion/Uses the uses of a range and, in AddRange, the ranges of a virtual register, with
--             Scan, Insert, Ends, Place and Order about the insertion of a use; Ion/Links the lists that are
--             linked in an array;
--             Ion/Liveness the operands of an instruction, with Blocks and Fixups the passes
--             and Loops about the blocks of a loop;
--             Ion/Merge the merging of bundles, with Vregs the loops over the virtual registers;
--             Step, Interleave, Chains, Loop and Correct are about the merge of two bundles;
--             Ion/Split where a bundle is split, with Requeue the split; Ion/Process the main loop, with Retry
--             the second try for spilled bundles;
--             Ion/Allocate the allocation of a bundle to a register and its eviction, with Ranges,
--             Scan, Correct and Undo about them;
--             Ion/Slots the spill slots, with Fit about one slot, and Ion/Offsets their places, with
--             Layout about them;
--             Ion/Edits the inserted moves and the edits, with Groups, Resolved, Sorted and Correct.
--   Tests     definitions at concrete inputs, and each theorem at one.
--
-- State is passed explicitly: a method that changes its receiver returns the new one, a loop is a
-- function of its variables, and a call that may panic returns an Option whose `none` is the panic.
-- Words are numbers of the native type with their wrap-around written out, as a release build has it:
-- `debug_assert!` and the checks of overflow are not part of it. Hash maps are association lists, or
-- lists by block number where the keys are the blocks; slices and vectors are lists.
--
-- Loops that are not structural take fuel, and `none` also stands for fuel that is spent. The loop of
-- `ParallelMoves::resolve` is given twice the number of moves and two rounds more: each round enters a
-- move or finishes one, and the result says that this is enough. The iterator of a range needs one
-- round more than there are instructions, the doubling in `BitVec::ensure_idx` one more than the
-- word's number, and `dominates` one more than the rank of the block; these are proved too. The search
-- of src/postorder.rs needs two rounds for each block, one for each edge, and one. The fuel of the
-- loops of src/domtree.rs but `dominates`, and of `Checker::analyze`, is an argument.
-- The loops of `resolve_inserted_moves` get a round for each move, or parameter, and one more, which
-- is enough. The loops over the linked lists of ranges and uses take fuel, and on a list that ends and
-- is shorter than the fuel they run over its items (Ion/Env, Ion/Uses and Ion/Merge, where one round
-- more than the items of the lists is enough).
--
-- The B-trees of ranges are lists of entries in no particular order: a search finds an entry whose key
-- compares `Equal`, and where several do, the first; the theorems are about every list. The heap of
-- bundles is the list of what it holds, and gives the greatest entry by priority and bundle.
--
-- The sorting and searching of slices stand for what their documentation says: a stable sort by key,
-- and a binary search that finds an element with the key where there is one. The client behind
-- `Function` is a parameter.
--
-- Not modelled: the moves between blocks and at program points that realise the allocations
-- (src/ion/mod.rs, `apply_allocations_and_insert_moves`), and with them the whole run of the
-- allocator; the counters and the logging; the printing of values; and the fuzzing, benchmark and test
-- drivers.
pub mod Prelude
pub mod Reg
pub mod Operand
pub mod Alloc
pub mod Index
pub mod ProgPoint
pub mod Moves
pub mod Function
pub mod Postorder
pub mod Domtree
pub mod Cfg
pub mod Ssa
pub mod Checker
pub mod BitVec
pub mod Ion
pub mod Tests
