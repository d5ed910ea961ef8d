-- ===== src/Sequence.antt =====
-- The click sequences: `sequence_token.c`, `sequence_repeat.c` and `clickSequence` of `commands.c`
-- (all in sys-agent/source).
pub mod Token
pub mod Repeat
mod Tests
