-- ===== src/CommandLine/Parser.antt =====
-- The documented rules by which the C runtime and CommandLineToArgvW of Windows take a command line
-- apart, for the arguments behind the program's name. Blanks between arguments are skipped, and an
-- argument ends at a blank outside of quotes. Backslashes stand for themselves unless a quote
-- follows: then each two of them make one, and what is left over makes the quote stand for itself.
-- Another quote begins or ends a quoted part; two in a row inside of one make a quote.
use libuv.Prelude.{
  ℕ, ◌+◌, ◌/◌, ◌%◌, Bool, true, false, ◌||◌, Option, none, some, List, [], ◌∷◌, ◌++◌, ◌==◌,
  if◌then◌else◌, replicate,
}
use libuv.CommandLine.{space, tab, quote, backslash}

-- Outside of quotes, inside, or outside just behind a closing quote.
pub data Quoting : Type 0 where
  outside inside closed : Quoting

-- Between arguments; or in one, with the number of the backslashes just read and the argument up
-- to them.
pub data Mode : Type 0 where
  between : Mode
  within : ℕ → Quoting → List ℕ → Mode

abbrev pub is_blank : ℕ → Bool
is_blank c = c == space || c == tab

abbrev pub is_inside : Quoting → Bool
is_inside inside = true
is_inside outside = false
is_inside closed = false

abbrev pub backslashes : ℕ → List ℕ
backslashes n = replicate n backslash

-- A quote that is not made one by a backslash.
abbrev pub at_quote : Quoting → List ℕ → Mode
at_quote outside cur = within 0 inside cur
at_quote inside cur = within 0 closed cur
at_quote closed cur = within 0 inside (cur ++ quote ∷ [])

-- Only a quote just behind the closing one is special.
abbrev pub settle : Quoting → Quoting
settle outside = outside
settle inside = inside
settle closed = outside

-- The argument that ends at a character, if one does, and what comes after.
unfoldable pub read_char : ℕ → Quoting → List ℕ → ℕ → Option (List ℕ) × Mode
read_char n q cur c =
    if c == backslash
    then (none, within (n + 1) (settle q) cur)
    else if c == quote
    then if n % 2 == 0
      then (none, at_quote q (cur ++ backslashes (n / 2)))
      else (none, within 0 (settle q) (cur ++ backslashes (n / 2) ++ quote ∷ []))
    else if is_blank c
    then if is_inside q
      then (none, within 0 q (cur ++ backslashes n ++ c ∷ []))
      else (some (cur ++ backslashes n), between)
    else (none, within 0 (settle q) (cur ++ backslashes n ++ c ∷ []))

unfoldable pub step : Mode → ℕ → Option (List ℕ) × Mode
unfolding read_char
step between c = if is_blank c then (none, between) else read_char 0 outside [] c
step (within n q cur) c = read_char n q cur c

abbrev pub with_done : Option (List ℕ) → List (List ℕ) → List (List ℕ)
with_done none args = args
with_done (some a) args = a ∷ args

abbrev pub at_end : Mode → List (List ℕ)
at_end between = []
at_end (within n q cur) = (cur ++ backslashes n) ∷ []

unfoldable pub parse : Mode → List ℕ → List (List ℕ)
unfolding step
parse m [] = at_end m
parse m (c ∷ text) = let (done, m') = step m c in with_done done (parse m' text)
