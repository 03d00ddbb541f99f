-- ===== src/Frontend/Lengths.antt =====
-- src/frontend/optimizer.rs: an instruction leaves as many facts as there were.
use aziky.Prelude.{
  some_is, ℕ, zero, suc, ◌≡◌, refl, sym, ap, ◌∙◌, some, List, [], ◌∷◌, length, set, length-set,
  bind-some, replicate,
}
use aziky.Ir.{
  RuntimeInstr, load_seed, mov, bin_op, bin_op_in_place, float_bin_op, cmp, normalize_int,
  compare_swap, radix_sort_fixed_int, call, load_index, load_index_unchecked, store_index,
  store_index_unchecked, heap_load_int, alloc, file_open, file_write, file_read, thread_spawn,
  thread_join, channel_create, channel_recv,
}
use aziky.Frontend.SlotFacts.{SlotFacts, unknown_facts, binop_facts}
use aziky.Frontend.Transfer.{forget_slots, runtime_transfer_slot_facts}
use aziky.Frontend.Bounds.{Facts}

length-forget_slots :
    (facts : List SlotFacts) (slots : List ℕ) → length (forget_slots facts slots) ≡ length facts
length-forget_slots facts [] = refl
length-forget_slots facts (s ∷ slots) =
    length-forget_slots (set facts s unknown_facts) slots ∙ length-set facts s unknown_facts

pub length-replicate : (n : ℕ) (f : SlotFacts) → length (replicate n f) ≡ n
length-replicate zero f = refl
length-replicate (suc n) f = ap suc (length-replicate n f)

-- An instruction leaves as many facts as there were.
pub length-transfer :
    (instr : RuntimeInstr) (facts out : Facts) (n : ℕ)
    → length facts ≡ n
    → runtime_transfer_slot_facts instr facts n ≡ some out
    → length out ≡ n
unfolding runtime_transfer_slot_facts
length-transfer (load_seed dst kind input) facts out n e h =
    ap length (sym (some_is h)) ∙ (length-set facts dst _ ∙ e)
length-transfer (mov dst src) facts out n e h =
    ap length (sym (some_is h)) ∙ (length-set facts dst _ ∙ e)
length-transfer (float_bin_op dst bits op lhs rhs) facts out n e h =
    ap length (sym (some_is h)) ∙ (length-set facts dst _ ∙ e)
length-transfer (cmp dst op lhs rhs) facts out n e h =
    ap length (sym (some_is h)) ∙ (length-set facts dst _ ∙ e)
length-transfer (normalize_int dst signed bits) facts out n e h =
    ap length (sym (some_is h)) ∙ (length-set facts dst _ ∙ e)
length-transfer (load_index dst slots index) facts out n e h =
    ap length (sym (some_is h)) ∙ (length-set facts dst _ ∙ e)
length-transfer (load_index_unchecked dst slots index) facts out n e h =
    ap length (sym (some_is h)) ∙ (length-set facts dst _ ∙ e)
length-transfer (heap_load_int dst ptr index bytes) facts out n e h =
    ap length (sym (some_is h)) ∙ (length-set facts dst _ ∙ e)
length-transfer (alloc dst size) facts out n e h =
    ap length (sym (some_is h)) ∙ (length-set facts dst _ ∙ e)
length-transfer (file_open dst path flags mode) facts out n e h =
    ap length (sym (some_is h)) ∙ (length-set facts dst _ ∙ e)
length-transfer (file_write dst fd ptr len) facts out n e h =
    ap length (sym (some_is h)) ∙ (length-set facts dst _ ∙ e)
length-transfer (file_read dst fd ptr len) facts out n e h =
    ap length (sym (some_is h)) ∙ (length-set facts dst _ ∙ e)
length-transfer (thread_join dst handle) facts out n e h =
    ap length (sym (some_is h)) ∙ (length-set facts dst _ ∙ e)
length-transfer (thread_spawn dst target ret) facts out n e h =
    ap length (sym (some_is h)) ∙ (length-set facts dst _ ∙ e)
length-transfer (channel_create dst capacity b) facts out n e h =
    ap length (sym (some_is h)) ∙ (length-set facts dst _ ∙ e)
length-transfer (channel_recv dst handle) facts out n e h =
    ap length (sym (some_is h)) ∙ (length-set facts dst _ ∙ e)
length-transfer (bin_op dst op lhs rhs) facts out n e h =
    let (f, made, h') = bind-some (binop_facts op _ _) _ _ h in
    ap length (sym (some_is h')) ∙ (length-set facts dst f ∙ e)
length-transfer (bin_op_in_place dst op rhs) facts out n e h =
    let (f, made, h') = bind-some (binop_facts op _ _) _ _ h in
    ap length (sym (some_is h')) ∙ (length-set facts dst f ∙ e)
length-transfer (compare_swap left right signed) facts out n e h =
    ap length (sym (some_is h))
    ∙ (length-set (set facts left _) right _ ∙ (length-set facts left _ ∙ e))
length-transfer (call target) facts out n e h =
    ap length (sym (some_is h)) ∙ length-replicate n unknown_facts
length-transfer (radix_sort_fixed_int slots b signed stable) facts out n e h =
    ap length (sym (some_is h)) ∙ (length-forget_slots facts slots ∙ e)
length-transfer (store_index slots index src) facts out n e h =
    ap length (sym (some_is h)) ∙ (length-forget_slots facts slots ∙ e)
length-transfer (store_index_unchecked slots index src) facts out n e h =
    ap length (sym (some_is h)) ∙ (length-forget_slots facts slots ∙ e)
length-transfer _ facts out n e h = ap length (sym (some_is h)) ∙ e
