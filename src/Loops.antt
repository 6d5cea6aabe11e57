-- ===== src/Loops.antt =====
-- src/services/handlers/loop-handler.ts: a loop that runs a task again and again until an evaluation, a
-- limit or a failure ends it.
pub mod Loop
pub mod Iteration
pub mod Handler
pub mod Results
pub mod Limits
pub mod Bounded
pub mod Outcomes
pub mod Histories
pub mod Best
pub mod Improved
pub mod Unbeaten
pub mod Finished
pub mod Going
