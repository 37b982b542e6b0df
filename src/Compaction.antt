-- ===== src/Compaction.antt =====
-- swebench_eval/harnesses/compaction.py: the deterministic compaction of a message list, in which the
-- first messages and the last ones are kept, tool results between them are cut, and whole turn groups
-- are dropped if that is not enough.
pub mod Message
pub mod Tail
pub mod Stages
pub mod Threshold
