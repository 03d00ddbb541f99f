-- ===== src/Ir/Float.antt =====
-- src/frontend/semantics/ir.rs: the floating-point operations, in a module of their own because
-- their names are also those of integer operations.
pub data RuntimeFloatBinOp : Type 0 where
  add sub mul div : RuntimeFloatBinOp
