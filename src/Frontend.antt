-- ===== src/Frontend.antt =====
-- src/frontend/optimizer.rs: parts of the optimizer of runtime programs.
pub mod Affine
pub mod AffineLaws
pub mod AffineMasked
pub mod Bounds
pub mod BoundsEnds
pub mod BoundsSafe
pub mod Effects
pub mod Eval
pub mod EvalSound
mod BoundsExamples
mod Examples
pub mod FactWords
pub mod FactsFit
pub mod FactsSound
pub mod Control
pub mod Fixpoint
pub mod Fold
pub mod FoldPass
pub mod FoldSound
pub mod Known
pub mod Lengths
pub mod Masks
pub mod Merge
pub mod MergeFits
pub mod PassSound
pub mod Settled
pub mod ShiftBounds
pub mod SlotBounds
pub mod SlotCount
pub mod SlotFacts
pub mod Transfer
pub mod TransferSound
pub mod Worklist
