-- ===== src/Lib.antt =====
-- A verification of parts of the Aziky compiler: the runtime instructions, the backend's
-- superoptimizer with its cost tables and its scheduling of instructions, analyses of the
-- backend's LIR, the constant folding and the analysis of bounds of the frontend's optimizer, the
-- ELF files that the compiler writes, and the sharded allocator.
--
-- How the parts interact. The frontend lowers a program to runtime instructions (Ir:
-- src/frontend/semantics/ir.rs) and optimizes them (Frontend: src/frontend/optimizer.rs), among
-- other passes by folding constants and by removing the bounds checks that it proves. The backend
-- replaces copies (Copies), rewrites single instructions (Superopt) and reorders runs of pure ones
-- (Schedule), all in src/backend/optimizer.rs, with the cost table of src/backend/peephole.rs
-- (Peephole) and the slots of src/backend/lir.rs (Lir), which also checks programs and computes
-- what is known of the bits of their values. The
-- machine code is written to files (Object: src/object). The allocator (Allocator:
-- src/backend/allocator.rs) is a component of its own.
--
-- Files.
-- - Prelude and below: shared names; lists and options; Bits has the laws of the bitwise
--   operations at every width; Digits reads numbers digit by digit; Sorting has `sort_unstable`
--   and `dedup` of vectors of indices.
-- - Word: the operations on u64 and i64 that the sources take from Rust's standard library;
--   Word/Laws has their bounds and the law of powers of two.
-- - Ir: RuntimeInstr, RuntimeOperand, RuntimeBinOp, RuntimeCmpOp, RuntimeProgram.
-- - Lir/Slots: read_slots, write_slots; Lir/Limits says variant by variant which are in range.
--   Lir/Verify: verify_runtime_program, with its proof.
--   Lir/KnownBits: KnownBits, known_bits_for_instruction, known_bits_for_binop,
--   known_bits_for_phi. Lir/Demand: demand_binop_inputs. Lir/Intervals: LiveInterval::interferes,
--   with its proof. Lir/Described, Lir/Facts, Lir/Normalized, Lir/Flow, Lir/Ranges and
--   Lir/Demanded hold proofs, Lir/Examples runs.
-- - Peephole: get_instruction_info.
-- - Superopt/Evaluate: evaluate_binop, evaluate_cmp, evaluate_pure_instruction. Superopt/Rewrite:
--   synthesize_candidate, enumerate_candidates, has_exact_rewrite_proof. Superopt/Verify:
--   verify_candidate. Superopt/Cost: target_instruction_cost, register_pressure_cost.
--   Superopt/Run: run_verified_superoptimizer. Superopt/Identities, Superopt/Soundness and
--   Superopt/Execute hold proofs, Superopt/Examples runs.
-- - Schedule/Ports: machine_info, account_ports, projected_machine_pressure. Schedule/Pressure:
--   peak_register_pressure. Schedule/Region: schedule_region, with `link` for its graph of
--   dependences, critical_from for the critical paths and schedule_from for the loop over the
--   ready nodes. Schedule/Pass: schedule_pure_regions and the starts of blocks of
--   build_block_graph. Schedule/Outcome says what the instructions do, Schedule/Orders which
--   orders are allowed and that they do the same; Schedule/Counts, Schedule/Graph, Schedule/Kahn,
--   Schedule/Loop, Schedule/Ends and Schedule/Start hold the invariants of the loop, Schedule/Total and
--   Schedule/Kept the results on regions and blocks. Schedule/Entries says where jumps and calls
--   lead, Schedule/Segments has the result on programs, Schedule/Examples runs.
-- - Copies/Rewrite: rewrite_instruction_operands. Copies/Remove: remove_runtime_instructions.
--   Copies/Rewritten and Copies/Moved hold proofs, Copies/Examples runs.
-- - Object/Bytes: push_uleb, align_up, `to_le_bytes`. Object/Slices: parts of files and `resize`.
--   Object/Elf64: emit_elf64_executable. Object/Sections: Section, section_name_table,
--   layout_elf_sections, finish_elf_prelaid, finish_elf. Object/Metadata: metadata_text,
--   aziky_note, escape_field. Object/Dwarf: DebugSections::new, dwarf_line, elf_symbols.
--   Object/Relocatable: emit_elf64_relocatable, with its proof. Object/Layout, Object/Headers,
--   Object/Files, Object/Names and Object/Escapes hold proofs, Object/Examples runs.
-- - Frontend/Affine: affine_pow, affine_index_pow, affine_index_pow_masked, with the proofs in
--   Frontend/AffineLaws and Frontend/AffineMasked. Frontend/Eval: eval_runtime_binop,
--   eval_runtime_cmp, fold_binop_identity. Frontend/Fold: fold_runtime_instr. Frontend/FoldPass:
--   peephole_optimize_runtime_instrs. Frontend/EvalSound, Frontend/Known, Frontend/FoldSound and
--   Frontend/PassSound hold proofs, Frontend/Examples runs.
-- - Frontend/SlotFacts: SlotFacts, binop_facts, merge_fact_vectors. Frontend/Transfer:
--   runtime_transfer_slot_facts. Frontend/SlotCount: runtime_program_slot_count, with the proof
--   in Frontend/SlotBounds. Frontend/Bounds: compute_runtime_slot_facts_at_instr,
--   eliminate_expr_bounded_index_checks_global. Frontend/Effects says what instructions may do to
--   a frame, Frontend/Control where they lead a thread. Frontend/Masks, Frontend/FactsSound, Frontend/ShiftBounds and Frontend/TransferSound
--   hold the proofs on single instructions, Frontend/Merge, Frontend/Settled, Frontend/Lengths,
--   Frontend/Fixpoint and Frontend/BoundsSafe those on programs, Frontend/FactWords,
--   Frontend/FactsFit, Frontend/BoundsEnds, Frontend/MergeFits and Frontend/Worklist those that
--   the analysis ends, Frontend/BoundsExamples runs.
-- - Allocator/Layout: class_align, size_class_index and the normalisation of size classes.
--   Allocator/Shard: the operations of one shard. Allocator/Sharded: new, allocate_on,
--   deallocate_on, statistics, drop. Allocator/Blocks, Allocator/Serving, Allocator/Whole,
--   Allocator/Sizes and Allocator/History hold proofs, Allocator/Examples runs.
--
-- Correspondence. A u64, usize or u32 is a native number, with its wrap-around written out where
-- the source computes with it. A Vec used as a stack is a list with the last pushed element first.
-- A HashMap of slots is a function into Option. A panic of an index out of range is `none`. Loops
-- are structural recursion; the loops over bits of a word run over 64 digits, which cover every
-- u64, and the scan of two intervals has the sum of the lengths as fuel, since each round drops a
-- segment. An error message is the constructor that names what it reports. The loops of repeated
-- squaring halve a u64 and have 64 rounds as fuel. The worklist of the analysis of bounds has a
-- visit as a unit of fuel: analysis_fuel counts two for every change that the facts of a program
-- allow, which are enough, since a visit takes an index from the queue and a change lowers the
-- height of the facts. In the frontend's optimizer an outer `none` is a panic of the compiler; the one of
-- normalize_const_int, on a signed integer of no bits, is that of builds with overflow checks. The
-- loop of schedule_region takes a node from those left in each round and has one round for each
-- instruction as fuel; a BTreeSet is an increasing list. The pass writes over the indices of a
-- block, which are consecutive; the model puts the code in the block's place. Of the lowering that
-- the pass begins with the model has the starts of blocks and the panic of build_value_ssa on a
-- slot that the program does not have. A byte is a number,
-- a text its bytes. LEB128 of a u64 has ten rounds, its decimal text twenty. Where the source
-- copies fields into ranges of an array that follow each other, the model puts the fields one
-- behind the other. Sums of offsets and lengths do not wrap: they are sizes of what is in memory.
--
-- What is not modelled. The rest of the instruction set has no semantics in the source outside the
-- emitter, so execution is that of pure straight-line code; for the analysis of bounds the other
-- instructions may write anything to the slots that they write, a call may write anything, and the
-- slots that another thread writes are left out. The operations of f32 and f64 are a parameter.
-- The order of the texts of the derived Debug is a parameter of the superoptimizer. Whether the
-- processor's name holds "atom" is a Boolean. The addresses that the system allocator returns, and
-- the hash of a thread's id, are arguments. An operation of the allocator is one step; memory
-- orderings and poisoned mutexes are left out. The lexer, parser, semantics, emitter, packages,
-- targets, tooling and the command line are not modelled. Of src/object shared objects, archives,
-- Mach-O and PE are not, and of src/backend/optimizer.rs the choice of the copies to remove and
-- the layout by profiles. Of src/frontend/optimizer.rs the rewrites of loops, calls and sorts, the
-- bounds of loop indices and the compaction of slots are not modelled. Of src/backend/lir.rs the
-- fixed points that compute known and demanded bits, the edges of the block graph, SSA
-- construction, loops and the construction of live intervals are not.
pub mod Prelude
pub mod Ir
pub mod Word
pub mod Lir
pub mod Frontend
pub mod Superopt
pub mod Peephole
pub mod Allocator
pub mod Schedule
pub mod Object
pub mod Copies
