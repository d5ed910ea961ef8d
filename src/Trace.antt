-- ===== src/Trace.antt =====
-- The execution tracer's pure part, sys-agent/source/debug_trace_model.c, and the event ring of
-- sys-agent/source/debug_trace.c.
pub mod Spec
pub mod Address
pub mod Config
pub mod Ring
mod Tests
