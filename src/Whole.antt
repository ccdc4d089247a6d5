-- ===== src/Whole.antt =====
-- The adapter as a whole: what holds between two steps of the embedding program, whatever it does.
pub mod Pending
pub mod Settle
pub mod Session
pub mod Dialling
pub mod Answers
pub mod Sound
pub mod Fetch
pub mod Process
pub mod Refine
pub mod Kept
pub mod Round
pub mod Step
pub mod Turn
pub mod Course
pub mod Waiting
pub mod Calling
