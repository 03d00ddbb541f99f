-- ===== src/Ir.antt =====
-- src/frontend/semantics/ir.rs: the runtime instructions that the frontend lowers to.
-- A `usize`, `u64`, `u32`, `u16` or `u8` is a native ℕ; `IsWord` bounds the immediates.
mod Float
pub use Float.{RuntimeFloatBinOp}
use Prim.Native.String.{String}
use aziky.Prelude.{ℕ, ◌<◌, ◌^◌, ◌≡◌, refl, Bool, true, false, Option, List}

pub data RuntimeOperand : Type 0 where
  slot : ℕ → RuntimeOperand
  imm : ℕ → RuntimeOperand

pub data RuntimeBinOp : Type 0 where
  add sub mul div_unsigned div_signed mod_unsigned mod_signed : RuntimeBinOp
  op_and op_or op_xor shl shr_unsigned shr_signed : RuntimeBinOp

pub data RuntimeCmpOp : Type 0 where
  eq ne lt_unsigned le_unsigned gt_unsigned ge_unsigned : RuntimeCmpOp
  lt_signed le_signed gt_signed ge_signed : RuntimeCmpOp

pub data RuntimeLoadKind : Type 0 where
  entropy_seed argument_count entry_stack_pointer : RuntimeLoadKind
  monotonic_nanos wall_time_nanos process_id : RuntimeLoadKind

-- The arguments stand in the order of the fields of the source's variants.
pub data RuntimeInstr : Type 0 where
  load_seed : ℕ → RuntimeLoadKind → Option RuntimeOperand → RuntimeInstr
  mov : ℕ → RuntimeOperand → RuntimeInstr
  bin_op : ℕ → RuntimeBinOp → RuntimeOperand → RuntimeOperand → RuntimeInstr
  bin_op_in_place : ℕ → RuntimeBinOp → RuntimeOperand → RuntimeInstr
  float_bin_op : ℕ → ℕ → RuntimeFloatBinOp → RuntimeOperand → RuntimeOperand → RuntimeInstr
  cmp : ℕ → RuntimeCmpOp → RuntimeOperand → RuntimeOperand → RuntimeInstr
  normalize_int : ℕ → Bool → ℕ → RuntimeInstr
  jump : ℕ → RuntimeInstr
  jump_if_zero : ℕ → ℕ → RuntimeInstr
  jump_if_cmp_false : RuntimeCmpOp → RuntimeOperand → RuntimeOperand → ℕ → RuntimeInstr
  compare_swap : ℕ → ℕ → Bool → RuntimeInstr
  radix_sort_fixed_int : List ℕ → ℕ → Bool → Bool → RuntimeInstr
  call : ℕ → RuntimeInstr
  load_index : ℕ → List ℕ → RuntimeOperand → RuntimeInstr
  load_index_unchecked : ℕ → List ℕ → RuntimeOperand → RuntimeInstr
  store_index : List ℕ → RuntimeOperand → RuntimeOperand → RuntimeInstr
  store_index_unchecked : List ℕ → RuntimeOperand → RuntimeOperand → RuntimeInstr
  heap_load_int : ℕ → RuntimeOperand → RuntimeOperand → ℕ → RuntimeInstr
  heap_store_int : RuntimeOperand → RuntimeOperand → RuntimeOperand → ℕ → RuntimeInstr
  heap_copy : RuntimeOperand → RuntimeOperand → RuntimeOperand → RuntimeInstr
  alloc : ℕ → RuntimeOperand → RuntimeInstr
  free : RuntimeOperand → RuntimeOperand → RuntimeInstr
  file_open : ℕ → RuntimeOperand → ℕ → ℕ → RuntimeInstr
  file_write : ℕ → RuntimeOperand → RuntimeOperand → RuntimeOperand → RuntimeInstr
  file_read : ℕ → RuntimeOperand → RuntimeOperand → RuntimeOperand → RuntimeInstr
  file_close : RuntimeOperand → RuntimeInstr
  thread_spawn : ℕ → ℕ → Option ℕ → RuntimeInstr
  thread_join : ℕ → RuntimeOperand → RuntimeInstr
  channel_create : ℕ → RuntimeOperand → Bool → RuntimeInstr
  channel_send : RuntimeOperand → RuntimeOperand → RuntimeInstr
  channel_recv : ℕ → RuntimeOperand → RuntimeInstr
  channel_close : RuntimeOperand → Bool → RuntimeInstr
  channel_destroy : RuntimeOperand → RuntimeInstr
  print_const : String → RuntimeInstr
  print_int : RuntimeOperand → Bool → ℕ → RuntimeInstr
  return : RuntimeInstr
  exit : RuntimeOperand → RuntimeInstr

pub record RuntimeProgram : Type 0 where
  pub slots : ℕ
  pub instrs : List RuntimeInstr

-- The derived equality of the operations.
pub RuntimeBinOp-discrete : Discrete RuntimeBinOp
RuntimeBinOp-discrete = hlevel

unfoldable pub same_op : RuntimeBinOp → RuntimeBinOp → Bool
unfolding RuntimeBinOp-discrete
same_op a b = elim (RuntimeBinOp-discrete a b) [ yes _ ↦ true | no _ ↦ false ]

pub same_op→eq : (a b : RuntimeBinOp) → same_op a b ≡ true → a ≡ b
unfolding same_op
same_op→eq a b h = decided (RuntimeBinOp-discrete a b) h
  where
    decided : (d : Dec (a ≡ b)) → (elim d [ yes _ ↦ true | no _ ↦ false ]) ≡ true → a ≡ b
    decided (yes e) h = e
    decided (no _) h = cc

-- A value that a `u64` can hold.
abbrev pub IsWord : ℕ → Type 0
IsWord n = n < 2 ^ 64
