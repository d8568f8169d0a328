-- ===== src/CommandLine/Reading.antt =====
-- src/win/process.c: what the rules for command lines make of an escaped text.
use libuv.Prelude.{
  ℕ, zero, suc, ◌+◌, ◌*◌, ◌/◌, ◌%◌, ◌≡◌, refl, sym, ap, ◌∙◌, inl, inr, Bool, true, false, ◌&&◌,
  List, [], ◌∷◌, ◌++◌, append_assoc, append-nil, ◌==◌, if◌then◌else◌, Bool-cases, arith,
}
use mathlib.Core.Path.{subst}
use libuv.CommandLine.{quote, backslash}
use libuv.CommandLine.Parser.{inside, closed, within, backslashes, is_blank, read_char, step, parse}
use libuv.CommandLine.Escaped.{escaped}

pub backslashes-suc :
    (n : ℕ) (s : List ℕ) → backslashes (n + 1) ++ s ≡ backslashes n ++ backslash ∷ s
backslashes-suc n s = ap (λ k. backslashes k ++ s) (n-suc n) ∙ shifted n
  where
    n-suc : (n : ℕ) → n + 1 ≡ suc n
    n-suc n = omega arith

    shifted : (n : ℕ) → backslashes (suc n) ++ s ≡ backslashes n ++ backslash ∷ s
    shifted zero = refl
    shifted (suc n) = ap (λ t. backslash ∷ t) (shifted n)

-- What the parser does in quotes at each kind of character.
module _ (cur : List ℕ) (t : List ℕ) where
  parse-backslash :
      (n : ℕ) → parse (within n inside cur) (backslash ∷ t) ≡ parse (within (n + 1) inside cur) t
  unfolding parse step read_char
  parse-backslash n = refl

  parse-close :
      (k : ℕ)
      → parse (within (2 * k) inside cur) (quote ∷ t)
        ≡ parse (within 0 closed (cur ++ backslashes k)) t
  unfolding parse step read_char
  parse-close k =
      let even : 2 * k % 2 ≡ 0 = omega arith in
      let half : 2 * k / 2 ≡ k = omega arith in rw (even, half) refl

  parse-marked :
      (k : ℕ)
      → parse (within (2 * k + 1) inside cur) (quote ∷ t)
        ≡ parse (within 0 inside (cur ++ backslashes k ++ quote ∷ [])) t
  unfolding parse step read_char
  parse-marked k =
      let odd : (2 * k + 1) % 2 ≡ 1 = omega arith in
      let half : (2 * k + 1) / 2 ≡ k = omega arith in rw (odd, half) refl

  parse-plain :
      (n c : ℕ)
      → (c == backslash) ≡ false
      → (c == quote) ≡ false
      → parse (within n inside cur) (c ∷ t)
        ≡ parse (within 0 inside (cur ++ backslashes n ++ c ∷ [])) t
  unfolding parse step read_char
  parse-plain n c other plain = elim (Bool-cases (is_blank c)) [
    | inl blank ↦ rw (other, plain, blank) refl
    | inr solid ↦ rw (other, plain, solid) refl
  ]

-- `n` backslashes before the escaped text of `s`, twice as many where they are doubled, are read as
-- `n` backslashes and `s`.
abbrev pub Reads : Bool × List ℕ → List ℕ → ℕ → List ℕ → List ℕ → Type 0
Reads e s n cur rest =
    parse (within (if e.0 then 2 * n else n) inside cur) (e.1 ++ quote ∷ rest)
    ≡ parse (within 0 closed (cur ++ (backslashes n ++ s))) rest

-- The text goes on after a character that was taken into the argument.
goes_on :
    (s : List ℕ) (c n : ℕ) (cur rest : List ℕ)
    → Reads (escaped s) s 0 (cur ++ backslashes n ++ c ∷ []) rest
    → parse (within 0 inside (cur ++ backslashes n ++ c ∷ [])) ((escaped s).1 ++ quote ∷ rest)
      ≡ parse (within 0 closed (cur ++ (backslashes n ++ c ∷ s))) rest
goes_on s c n cur rest reads =
    let none_before : (if (escaped s).0 then 2 * 0 else 0) ≡ 0 = ground arith in
    ap
      (λ k.
        parse (within k inside (cur ++ backslashes n ++ c ∷ [])) ((escaped s).1 ++ quote ∷ rest))
      (sym none_before)
    ∙ reads
    ∙ ap (λ a. parse (within 0 closed a) rest)
        (append_assoc (cur ++ backslashes n) (c ∷ []) s ∙ append_assoc cur (backslashes n) (c ∷ s))

-- A backslash before the escaped text of `s`.
slash-Reads :
    (s : List ℕ) (n : ℕ) (cur rest : List ℕ)
    → Reads (escaped s) s (n + 1) cur rest
    → Reads (escaped (backslash ∷ s)) (backslash ∷ s) n cur rest
slash-Reads s n cur rest before =
    let text = (escaped s).1 ++ quote ∷ rest in
    let later : parse (within 0 closed (cur ++ (backslashes (n + 1) ++ s))) rest
        ≡ parse (within 0 closed (cur ++ (backslashes n ++ backslash ∷ s))) rest =
      ap (λ a. parse (within 0 closed (cur ++ a)) rest) (backslashes-suc n s) in
    elim (Bool-cases (escaped s).0) [
      | inl doubled ↦
          let equal : escaped (backslash ∷ s) ≡ (true, backslash ∷ backslash ∷ (escaped s).1) =
            ap
              (λ b.
                if b && true
                then (true, backslash ∷ backslash ∷ (escaped s).1)
                else (false, backslash ∷ (escaped s).1))
              doubled in
          let twice : 2 * n + 1 + 1 ≡ (if (escaped s).0 then 2 * (n + 1) else n + 1) =
            rw doubled (omega arith) in
          subst (λ e. Reads e (backslash ∷ s) n cur rest) (sym equal)
            (parse-backslash cur (backslash ∷ text) (2 * n)
              ∙ parse-backslash cur text (2 * n + 1)
              ∙ ap (λ k. parse (within k inside cur) text) twice
              ∙ before
              ∙ later)
      | inr alone ↦
          let equal : escaped (backslash ∷ s) ≡ (false, backslash ∷ (escaped s).1) =
            ap
              (λ b.
                if b && true
                then (true, backslash ∷ backslash ∷ (escaped s).1)
                else (false, backslash ∷ (escaped s).1))
              alone in
          let once : n + 1 ≡ (if (escaped s).0 then 2 * (n + 1) else n + 1) = rw alone refl in
          subst (λ e. Reads e (backslash ∷ s) n cur rest) (sym equal)
            (parse-backslash cur text n
              ∙ ap (λ k. parse (within k inside cur) text) once
              ∙ before
              ∙ later)
    ]

escaped-quote : (s : List ℕ) → escaped (quote ∷ s) ≡ (true, backslash ∷ quote ∷ (escaped s).1)
escaped-quote s = elim (Bool-cases (escaped s).0) [ inl e ↦ rw e refl | inr e ↦ rw e refl ]

pub escaped-plain :
    (c : ℕ) (s : List ℕ)
    → (c == backslash) ≡ false
    → (c == quote) ≡ false
    → escaped (c ∷ s) ≡ (false, c ∷ (escaped s).1)
escaped-plain c s other plain = elim (Bool-cases (escaped s).0) [
  | inl e ↦ rw (other, plain, e) refl
  | inr e ↦ rw (other, plain, e) refl
]

pub escaped-Reads : (s : List ℕ) (n : ℕ) (cur rest : List ℕ) → Reads (escaped s) s n cur rest
escaped-Reads [] n cur rest =
    parse-close cur rest n
    ∙ ap (λ a. parse (within 0 closed (cur ++ a)) rest) (sym (append-nil (backslashes n)))
escaped-Reads (c ∷ s) n cur rest = elim (Bool-cases (c == backslash)) [
  | inl slash ↦
      let same : c ≡ backslash = ground arith in
      subst (λ c. Reads (escaped (c ∷ s)) (c ∷ s) n cur rest) (sym same)
        (slash-Reads s n cur rest (escaped-Reads s (n + 1) cur rest))
  | inr other ↦ elim (Bool-cases (c == quote)) [
    | inl marked ↦
        let same : c ≡ quote = ground arith in
        let text = (escaped s).1 ++ quote ∷ rest in
        subst (λ c. Reads (escaped (c ∷ s)) (c ∷ s) n cur rest) (sym same)
          (subst (λ e. Reads e (quote ∷ s) n cur rest) (sym (escaped-quote s))
            (parse-backslash cur (quote ∷ text) (2 * n)
              ∙ parse-marked cur text n
              ∙ goes_on s quote n cur rest
                  (escaped-Reads s 0 (cur ++ backslashes n ++ quote ∷ []) rest)))
    | inr plain ↦
        subst (λ e. Reads e (c ∷ s) n cur rest) (sym (escaped-plain c s other plain))
          (parse-plain cur ((escaped s).1 ++ quote ∷ rest) n c other plain
            ∙ goes_on s c n cur rest (escaped-Reads s 0 (cur ++ backslashes n ++ c ∷ []) rest))
  ]
]
