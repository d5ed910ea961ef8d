-- ===== src/Args/Tests.antt =====
-- A command line for sys-agent/source/args.c.
use sys_agent.Prelude.{◌≡◌, some, [], ◌∷◌, Bytes}
use sys_agent.Args.{is_delimiter, Heap, parse_args}
use sys_agent.Args.Words.{parse_args-words}

-- `peek  1` and the end of the line.
abbrev small_line : Bytes
small_line = b'p' ∷ b'e' ∷ b'e' ∷ b'k' ∷ b' ' ∷ b' ' ∷ b'1' ∷ 0x0d ∷ 0x0a ∷ []

-- Another buffer is live.
abbrev one_live : Heap
one_live = record { allocated = 5; live = 3 ∷ [] }

parse_args-words_example :
    parse_args (λ call. call.0) small_line one_live
    ≡ some record {
      result = 2;
      calls = (2, some ((b'p' ∷ b'e' ∷ b'e' ∷ b'k' ∷ []) ∷ (b'1' ∷ []) ∷ [])) ∷ [];
      heap = record { allocated = 8; live = 3 ∷ [] };
    }
unfolding is_delimiter
parse_args-words_example = parse_args-words (λ call. call.0) small_line one_live
