-- ===== src/Runtime.antt =====
-- Parts of src/runtime that decide over a state in memory.
pub mod Transport
