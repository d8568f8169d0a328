-- ===== src/CommandLine/Examples.antt =====
-- src/win/process.c: command lines of concrete arguments.
use libuv.Prelude.{ℕ, ◌≡◌, refl, List, [], ◌∷◌, ◌++◌}
use libuv.CommandLine.{quote_cmd_arg}
use libuv.CommandLine.Parser.{between, parse}
use libuv.CommandLine.Quote.{Ends-space, quote_cmd_arg-parse}

-- `a\" b\`
abbrev hard : List ℕ
hard = 0x61 ∷ 0x5c ∷ 0x22 ∷ 0x20 ∷ 0x62 ∷ 0x5c ∷ []

-- `c:\d`
abbrev easy : List ℕ
easy = 0x63 ∷ 0x3a ∷ 0x5c ∷ 0x64 ∷ []

-- `"a\\\" b\\"`
hard_quoted :
    quote_cmd_arg hard
    ≡ 0x22 ∷ 0x61 ∷ 0x5c ∷ 0x5c ∷ 0x5c ∷ 0x22 ∷ 0x20 ∷ 0x62 ∷ 0x5c ∷ 0x5c ∷ 0x22 ∷ []
unfolding quote_cmd_arg
hard_quoted = refl

quote_cmd_arg-parse_example :
    parse between (quote_cmd_arg hard ++ 0x20 ∷ easy) ≡ hard ∷ parse between easy
quote_cmd_arg-parse_example =
    quote_cmd_arg-parse hard (0x20 ∷ easy) (parse between easy) (Ends-space easy)
