-- ===== src/CommandLine/Quote.antt =====
-- src/win/process.c: an argument that `quote_cmd_arg` has quoted is read back.
use libuv.Prelude.{
  ℕ, ◌+◌, ◌*◌, ◌≡◌, refl, sym, ap, ◌∙◌, inl, inr, Bool, true, false, ◌||◌, List, [], ◌∷◌, ◌++◌,
  append_assoc, append-nil, ◌==◌, if◌then◌else◌, length, Bool-cases, arith,
}
use mathlib.Core.Path.{subst}
use libuv.CommandLine.{
  space, tab, quote, backslash, has_blank_or_quote, has_quote_or_backslash, quote_cmd_arg,
}
use libuv.CommandLine.Parser.{
  outside, inside, closed, between, within, backslashes, is_blank, read_char, step, parse,
}
use libuv.CommandLine.Escaped.{escaped, escape_loop-escaped}
use libuv.CommandLine.Reading.{backslashes-suc, escaped-plain, escaped-Reads}

-- The text `t` ends an argument outside of quotes, and is then read as the arguments `args`.
abbrev pub Ends : List ℕ → List (List ℕ) → Type 0
Ends t args =
    ((n : ℕ) (cur : List ℕ) → parse (within n outside cur) t ≡ (cur ++ backslashes n) ∷ args)
    × ((cur : List ℕ) → parse (within 0 closed cur) t ≡ cur ∷ args)

pub Ends-end : Ends [] []
unfolding parse
Ends-end = (λ n cur. refl, λ cur. ap (λ a. a ∷ []) (append-nil cur))

pub Ends-space : (t : List ℕ) → Ends (space ∷ t) (parse between t)
unfolding parse step read_char
Ends-space t = (λ n cur. refl, λ cur. ap (λ a. a ∷ parse between t) (append-nil cur))

or-false : (a b : Bool) → (a || b) ≡ false → (a ≡ false) × (b ≡ false)
or-false true b e = absurd cc
or-false false b e = (refl, e)

bare-cons :
    (c : ℕ) (s : List ℕ)
    → has_blank_or_quote (c ∷ s) ≡ false
    → ((is_blank c ≡ false) × ((c == quote) ≡ false)) × (has_blank_or_quote s ≡ false)
bare-cons c s bare =
    let (no_space, no_tab) =
      or-false (c == space) (c == tab || (c == quote || has_blank_or_quote s)) bare in
    let (not_tab, no_quote) = or-false (c == tab) (c == quote || has_blank_or_quote s) no_tab in
    let (not_quote, rest) = or-false (c == quote) (has_blank_or_quote s) no_quote in
    ((rw (no_space, not_tab) refl, not_quote), rest)

unmarked-cons :
    (c : ℕ) (s : List ℕ)
    → has_quote_or_backslash (c ∷ s) ≡ false
    → ((c == quote) ≡ false) × (((c == backslash) ≡ false) × (has_quote_or_backslash s ≡ false))
unmarked-cons c s plain =
    let (not_quote, more) =
      or-false (c == quote) (c == backslash || has_quote_or_backslash s) plain in
    (not_quote, or-false (c == backslash) (has_quote_or_backslash s) more)

parse-solid :
    (n : ℕ) (cur : List ℕ) (c : ℕ) (t : List ℕ)
    → (c == backslash) ≡ false
    → (c == quote) ≡ false
    → is_blank c ≡ false
    → parse (within n outside cur) (c ∷ t)
      ≡ parse (within 0 outside (cur ++ backslashes n ++ c ∷ [])) t
unfolding parse step read_char
parse-solid n cur c t other plain solid = rw (other, plain, solid) refl

parse-first :
    (c : ℕ) (t : List ℕ)
    → is_blank c ≡ false
    → parse between (c ∷ t) ≡ parse (within 0 outside []) (c ∷ t)
unfolding parse step
parse-first c t solid = rw solid refl

parse-slash :
    (n : ℕ) (cur t : List ℕ)
    → parse (within n outside cur) (backslash ∷ t) ≡ parse (within (n + 1) outside cur) t
unfolding parse step read_char
parse-slash n cur t = refl

-- A text without blanks and quotes, outside of quotes.
bare-Reads :
    (s : List ℕ) (n : ℕ) (cur t : List ℕ) (args : List (List ℕ))
    → has_blank_or_quote s ≡ false
    → Ends t args
    → parse (within n outside cur) (s ++ t) ≡ (cur ++ (backslashes n ++ s)) ∷ args
bare-Reads [] n cur t args bare ends =
    ends.0 n cur ∙ ap (λ a. (cur ++ a) ∷ args) (sym (append-nil (backslashes n)))
bare-Reads (c ∷ s) n cur t args bare ends =
    let (first, rest) = bare-cons c s bare in
    elim (Bool-cases (c == backslash)) [
      | inl slash ↦
          let same : c ≡ backslash = ground arith in
          subst
            (λ c.
              parse (within n outside cur) (c ∷ (s ++ t))
              ≡ (cur ++ (backslashes n ++ c ∷ s)) ∷ args)
            (sym same)
            (parse-slash n cur (s ++ t)
              ∙ bare-Reads s (n + 1) cur t args rest ends
              ∙ ap (λ a. (cur ++ a) ∷ args) (backslashes-suc n s))
      | inr other ↦
          parse-solid n cur c (s ++ t) other first.1 first.0
          ∙ bare-Reads s 0 (cur ++ backslashes n ++ c ∷ []) t args rest ends
          ∙ ap (λ a. a ∷ args)
              (append_assoc (cur ++ backslashes n) (c ∷ []) s
                ∙ append_assoc cur (backslashes n) (c ∷ s))
    ]

unmarked-escaped : (s : List ℕ) → has_quote_or_backslash s ≡ false → (escaped s).1 ≡ s
unmarked-escaped [] plain = refl
unmarked-escaped (c ∷ s) plain =
    let (marked, (slash, rest)) = unmarked-cons c s plain in
    ap (λ e. e.1) (escaped-plain c s slash marked) ∙ ap (λ t. c ∷ t) (unmarked-escaped s rest)

-- An argument in quotes.
quoted-Reads :
    (s t : List ℕ) (args : List (List ℕ))
    → Ends t args
    → parse between (quote ∷ ((escaped s).1 ++ quote ∷ t)) ≡ s ∷ args
unfolding parse step read_char
quoted-Reads s t args ends =
    let none_before : 0 ≡ (if (escaped s).0 then 2 * 0 else 0) = ground arith in
    ap (λ k. parse (within k inside []) ((escaped s).1 ++ quote ∷ t)) none_before
    ∙ escaped-Reads s 0 [] t
    ∙ ends.1 s

-- The quoted argument, in the cases that are not empty.
pub quote_cmd_arg-cases :
    (c : ℕ) (s : List ℕ)
    → quote_cmd_arg (c ∷ s)
      ≡ (if has_blank_or_quote (c ∷ s) then quote ∷ ((escaped (c ∷ s)).1 ++ quote ∷ []) else c ∷ s)
unfolding quote_cmd_arg
quote_cmd_arg-cases c s =
    let full : (length (c ∷ s) == 0) ≡ false = ground arith in
    elim (Bool-cases (has_quote_or_backslash (c ∷ s))) [
      | inl marked ↦ rw (full, marked, escape_loop-escaped (c ∷ s)) refl
      | inr plain ↦ rw (full, plain, unmarked-escaped (c ∷ s) plain) refl
    ]

-- By the rules for command lines, what `quote_cmd_arg` writes for an argument, before a blank or the
-- end, is read as that argument, whatever units it has.
pub quote_cmd_arg-parse :
    (s t : List ℕ) (args : List (List ℕ))
    → Ends t args
    → parse between (quote_cmd_arg s ++ t) ≡ s ∷ args
unfolding quote_cmd_arg
quote_cmd_arg-parse [] t args ends = quoted-Reads [] t args ends
quote_cmd_arg-parse (c ∷ s) t args ends =
    subst (λ q. parse between (q ++ t) ≡ (c ∷ s) ∷ args) (sym (quote_cmd_arg-cases c s))
      (elim (Bool-cases (has_blank_or_quote (c ∷ s))) [
        | inr bare ↦ rw bare (
            parse-first c (s ++ t) (bare-cons c s bare).0.0
            ∙ bare-Reads (c ∷ s) 0 [] t args bare ends)
        | inl blank ↦ rw blank (
            ap (λ text. parse between (quote ∷ text))
              (append_assoc (escaped (c ∷ s)).1 (quote ∷ []) t)
            ∙ quoted-Reads (c ∷ s) t args ends)
      ])
