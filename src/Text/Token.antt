-- ===== src/Text/Token.antt =====
-- src/strtok.c: the tokens that a run of `uv__strtok` calls gives.
use libuv.Prelude.{
  ℕ, ◌≡◌, refl, ap, true, false, Option, none, some, List, [], ◌∷◌, ◌++◌, All, inl, inr, Bool-cases,
}
use libuv.Text.{is_sep, strtok_scan, strtok}

-- What one call cuts off: a token without separators, up to a separator or to the end.
abbrev Cut : List ℕ → List ℕ → List ℕ × Option (List ℕ) → Type 0
Cut sep s (token, none) = (s ≡ token) × All (λ c. is_sep sep c ≡ false) token
Cut sep s (token, some rest) =
    (c : ℕ) × (s ≡ token ++ c ∷ rest)
    × (is_sep sep c ≡ true)
    × All (λ k. is_sep sep k ≡ false) token

strtok_scan-Cut : (sep s : List ℕ) → Cut sep s (strtok_scan sep s)
unfolding strtok_scan
strtok_scan-Cut sep [] = (refl, tt)
strtok_scan-Cut sep (c ∷ s) = elim (Bool-cases (is_sep sep c)) [
  | inl at_sep ↦ rw at_sep (c, refl, at_sep, tt)
  | inr within ↦
      rw within (extend (strtok_scan sep s).0 (strtok_scan sep s).1 within (strtok_scan-Cut sep s))
]
  where
    extend :
        (token : List ℕ) (rest : Option (List ℕ))
        → is_sep sep c ≡ false
        → Cut sep s (token, rest)
        → Cut sep (c ∷ s) (c ∷ token, rest)
    extend token none h (e, all) = (ap (◌∷◌ c) e, (h, all))
    extend token (some r) h (k, e, at_sep, all) = (k, ap (◌∷◌ c) e, at_sep, (h, all))

-- What a call leaves behind of the text that it starts at: a token, and the text behind it.
abbrev pub Cuts : List ℕ → List ℕ → Option (List ℕ) × Option (List ℕ) → Type 0
Cuts sep s (none, itr) = ⊥
Cuts sep s (some token, none) = (s ≡ token) × All (λ c. is_sep sep c ≡ false) token
Cuts sep s (some token, some rest) =
    (c : ℕ) × (s ≡ token ++ c ∷ rest)
    × (is_sep sep c ≡ true)
    × All (λ k. is_sep sep k ≡ false) token

Cuts-Cut :
    (sep s token : List ℕ) (itr : Option (List ℕ))
    → Cut sep s (token, itr)
    → Cuts sep s (some token, itr)
Cuts-Cut sep s token none cut = cut
Cuts-Cut sep s token (some rest) cut = cut

-- A call of `uv__strtok` with a text, whatever `*itr` was, and a call with NULL where `*itr` is that
-- text do the same: they return a token without separators, which is the whole text, and set `*itr`
-- to NULL; or the text is that token, one separator, and what `*itr` is set to. A call with NULL
-- where `*itr` is NULL returns NULL and leaves it so.
strtok-Cuts :
    (sep s : List ℕ) (itr : Option (List ℕ))
    → Cuts sep s (strtok (some s) sep itr)
      × Cuts sep s (strtok none sep (some s))
      × (strtok none sep none ≡ (none, none))
unfolding strtok
strtok-Cuts sep s itr =
    let cut = Cuts-Cut sep s (strtok_scan sep s).0 (strtok_scan sep s).1 (strtok_scan-Cut sep s) in
    (cut, cut, refl)
