-- ===== src/CommandLine/Escaped.antt =====
-- src/win/process.c: the text that the escaping loop of `quote_cmd_arg` writes, from its beginning.
use libuv.Prelude.{
  ℕ, ◌*◌, ◌≤◌, ◌≡◌, refl, sym, ap, ◌∙◌, inl, inr, Bool, true, false, ◌&&◌, List, [], ◌∷◌, ◌++◌,
  append_assoc, append-nil, ◌==◌, if◌then◌else◌, length, Bool-cases, arith,
}
use libuv.CommandLine.{quote, backslash, wcsrev, escape_loop}

-- The escaped text, from its beginning: whether a backslash right before it would be doubled, and
-- the text.
abbrev pub escaped : List ℕ → Bool × List ℕ
escaped [] = (true, [])
escaped (c ∷ s) =
    let rest = escaped s in
    if rest.0 && c == backslash
    then (true, backslash ∷ c ∷ rest.1)
    else if c == quote
    then (true, backslash ∷ c ∷ rest.1)
    else (false, c ∷ rest.1)

wcsrev-append : (s t : List ℕ) → wcsrev (s ++ t) ≡ wcsrev t ++ wcsrev s
wcsrev-append [] t = sym (append-nil (wcsrev t))
wcsrev-append (c ∷ s) t =
    ap (λ r. r ++ c ∷ []) (wcsrev-append s t) ∙ append_assoc (wcsrev t) (wcsrev s) (c ∷ [])

-- `quote_hit` after the loop.
hit_after : List ℕ → Bool → Bool
hit_after [] hit = hit
hit_after (c ∷ s) hit =
    let yes' = hit_after s true in
    let no' = hit_after s false in
    if hit && c == backslash then yes' else if c == quote then yes' else no'

emitted : ℕ → Bool → List ℕ
emitted c hit =
    if hit && c == backslash
    then c ∷ backslash ∷ []
    else if c == quote
    then c ∷ backslash ∷ []
    else c ∷ []

escape_loop-append :
    (s : List ℕ) (c : ℕ) (hit : Bool)
    → escape_loop (s ++ c ∷ []) hit ≡ escape_loop s hit ++ emitted c (hit_after s hit)
unfolding escape_loop hit_after emitted
escape_loop-append [] c hit = refl
escape_loop-append (d ∷ s) c hit = elim (Bool-cases (hit && d == backslash)) [
  | inl doubled ↦ rw doubled (ap (λ t. d ∷ backslash ∷ t) (escape_loop-append s c true))
  | inr other ↦ elim (Bool-cases (d == quote)) [
    | inl marked ↦ rw (other, marked) (ap (λ t. d ∷ backslash ∷ t) (escape_loop-append s c true))
    | inr plain ↦ rw (other, plain) (ap (λ t. d ∷ t) (escape_loop-append s c false))
  ]
]

hit_after-append :
    (s : List ℕ) (c : ℕ) (hit : Bool)
    → hit_after (s ++ c ∷ []) hit
      ≡ (if hit_after s hit && c == backslash then true else if c == quote then true else false)
unfolding hit_after
hit_after-append [] c hit = refl
hit_after-append (d ∷ s) c hit = elim (Bool-cases (hit && d == backslash)) [
  | inl doubled ↦ rw doubled (hit_after-append s c true)
  | inr other ↦ elim (Bool-cases (d == quote)) [
    | inl marked ↦ rw (other, marked) (hit_after-append s c true)
    | inr plain ↦ rw (other, plain) (hit_after-append s c false)
  ]
]

emitted-escaped :
    (c : ℕ) (s : List ℕ)
    → ((if (escaped s).0 && c == backslash then true else if c == quote then true else false)
        ≡ (escaped (c ∷ s)).0)
      × (wcsrev (emitted c (escaped s).0) ++ (escaped s).1 ≡ (escaped (c ∷ s)).1)
unfolding emitted
emitted-escaped c s = elim (Bool-cases ((escaped s).0 && c == backslash)) [
  | inl doubled ↦ rw doubled (refl, refl)
  | inr other ↦ elim (Bool-cases (c == quote)) [
    | inl marked ↦ rw (other, marked) (refl, refl)
    | inr plain ↦ rw (other, plain) (refl, refl)
  ]
]

-- The loop from the end and the reversal escape the text from its beginning.
both-escaped :
    (s : List ℕ)
    → (hit_after (wcsrev s) true ≡ (escaped s).0)
      × (wcsrev (escape_loop (wcsrev s) true) ≡ (escaped s).1)
unfolding escape_loop hit_after
both-escaped [] = (refl, refl)
both-escaped (c ∷ s) =
    let (hit, text) = both-escaped s in
    let (flag, rest) = emitted-escaped c s in
    let whole =
      ap wcsrev (escape_loop-append (wcsrev s) c true)
      ∙ wcsrev-append (escape_loop (wcsrev s) true) (emitted c (hit_after (wcsrev s) true)) in
    (hit_after-append (wcsrev s) c true ∙ rw hit flag, whole ∙ rw (hit, text) rest)

pub escape_loop-escaped : (s : List ℕ) → wcsrev (escape_loop (wcsrev s) true) ≡ (escaped s).1
escape_loop-escaped s = (both-escaped s).1

pub escaped-le : (s : List ℕ) → length (escaped s).1 ≤ 2 * length s
escaped-le [] = omega arith
escaped-le (c ∷ s) = elim (Bool-cases ((escaped s).0 && c == backslash)) [
  | inl doubled ↦ rw doubled (omega (arith, escaped-le s))
  | inr other ↦ elim (Bool-cases (c == quote)) [
    | inl marked ↦ rw (other, marked) (omega (arith, escaped-le s))
    | inr plain ↦ rw (other, plain) (omega (arith, escaped-le s))
  ]
]
