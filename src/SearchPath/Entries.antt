-- ===== src/SearchPath/Entries.antt =====
-- src/win/process.c: paths as the texts of entries, plain or quoted, and how `search_path` slices them.
use libuv.Prelude.{
  ℕ, ◌≡◌, refl, sym, ◌∙◌, ap, Bool, true, false, not, ◌&&◌, List, [], ◌∷◌, ◌++◌, ◌==◌,
  if◌then◌else◌, length, length-append, append_assoc, append-nil, take, ltb, ◌-◌, ◌+◌, arith,
}
use mathlib.Core.Path.{subst}
use libuv.SearchPath.{semicolon, is_quote, unit_at, last_unit, one_less, upto, slice_at, unquoted}

-- An entry of a path: its directory as it is, or between two of one kind of quotes.
pub data Entry : Type 0 where
  plain : List ℕ → Entry
  quoted : ℕ → List ℕ → Entry

abbrev pub text : Entry → List ℕ
text (plain dir) = dir
text (quoted q dir) = q ∷ (dir ++ q ∷ [])

abbrev pub dir_of : Entry → List ℕ
dir_of (plain dir) = dir
dir_of (quoted q dir) = dir

abbrev pub avoids : ℕ → List ℕ → Bool
avoids c [] = true
avoids c (x ∷ s) = not (x == c) && avoids c s

-- A plain directory has no separator, and no quote at either end; a quoted one may have separators
-- and the other kind of quotes.
abbrev pub IsEntry : Entry → Type 0
IsEntry (plain dir) =
    (avoids semicolon dir ≡ true)
    × (is_quote (unit_at dir 0) ≡ false)
    × (is_quote (last_unit dir) ≡ false)
IsEntry (quoted q dir) = (is_quote q ≡ true) × (avoids q dir ≡ true)

-- The entries behind one, each with the separator before it.
abbrev pub tail_text : List Entry → List ℕ
tail_text [] = []
tail_text (e ∷ es) = semicolon ∷ (text e ++ tail_text es)

abbrev pub path_text : List Entry → List ℕ
path_text [] = []
path_text (e ∷ es) = text e ++ tail_text es

-- The directories that are searched: empty entries are passed over.
abbrev pub dirs_of : List Entry → List (List ℕ)
dirs_of [] = []
dirs_of (e ∷ es) = let rest = dirs_of es in if length (text e) == 0 then rest else dir_of e ∷ rest

upto-append :
    (c : ℕ) (s t : List ℕ) → avoids c s ≡ true → upto c (s ++ t) ≡ (s ++ (upto c t).0, (upto c t).1)
unfolding upto
upto-append c [] t free = refl
upto-append c (x ∷ s) t free =
    let other : (x == c) ≡ false = ground arith in rw (other, upto-append c s t (ground arith)) refl

upto-tail_text : (es : List Entry) → upto semicolon (tail_text es) ≡ ([], tail_text es)
unfolding upto
upto-tail_text [] = refl
upto-tail_text (e ∷ es) = refl

slice_at-plain :
    (dir : List ℕ) (es : List Entry)
    → IsEntry (plain dir)
    → slice_at (dir ++ tail_text es) ≡ (dir, tail_text es)
unfolding slice_at upto
slice_at-plain [] [] is = refl
slice_at-plain [] (e ∷ es) is = refl
slice_at-plain (c ∷ dir) es is =
    rw is.1 (
      upto-append semicolon (c ∷ dir) (tail_text es) is.0 ∙ rw (upto-tail_text es, append-nil) refl)

upto_self : (q : ℕ) (t : List ℕ) → upto q (q ∷ t) ≡ ([], q ∷ t)
unfolding upto
upto_self q t = ground arith

upto-closing :
    (q : ℕ) (dir : List ℕ) (es : List Entry)
    → avoids q dir ≡ true
    → upto q (dir ++ q ∷ [] ++ tail_text es) ≡ (dir, q ∷ tail_text es)
upto-closing q dir es free =
    rw
      (
        append_assoc dir (q ∷ []) (tail_text es),
        upto-append q dir (q ∷ tail_text es) free,
        upto_self q (tail_text es),
        append-nil,
      )
      refl

upto-behind_quote :
    (q : ℕ) (es : List Entry)
    → is_quote q ≡ true
    → upto semicolon (q ∷ tail_text es) ≡ (q ∷ [], tail_text es)
unfolding upto
upto-behind_quote q es is =
    let other : (q == semicolon) ≡ false = ground arith in rw (other, upto-tail_text es) refl

slice_at-quoted :
    (q : ℕ) (dir : List ℕ) (es : List Entry)
    → IsEntry (quoted q dir)
    → slice_at (text (quoted q dir) ++ tail_text es) ≡ (text (quoted q dir), tail_text es)
unfolding slice_at
slice_at-quoted q dir es is =
    rw (is.0, upto-closing q dir es is.1, upto-behind_quote q es is.0) refl

-- The slice at an entry is its text.
pub slice_at-text :
    (e : Entry) (es : List Entry)
    → IsEntry e
    → slice_at (text e ++ tail_text es) ≡ (text e, tail_text es)
slice_at-text (plain dir) es is = slice_at-plain dir es is
slice_at-text (quoted q dir) es is = slice_at-quoted q dir es is

unit_at-end : (s : List ℕ) (c : ℕ) → unit_at (s ++ c ∷ []) (length s) ≡ c
unit_at-end [] c = refl
unit_at-end (x ∷ s) c = unit_at-end s c

unit_at-last : (c : ℕ) (s : List ℕ) → unit_at (c ∷ s) (length s) ≡ last_unit (c ∷ s)
unit_at-last c [] = refl
unit_at-last c (d ∷ s) = unit_at-last d s

take-all : (s t : List ℕ) → take (length s) (s ++ t) ≡ s
take-all [] t = refl
take-all (c ∷ s) t = ap (c ∷◌) (take-all s t)

-- What a slice stands for, a directory that lies within it.
abbrev pub Stands : List ℕ × ℕ → List ℕ → Type 0
Stands (dir, dir_len) slice = (ltb (length dir) dir_len ≡ false) × (take dir_len dir ≡ slice)

-- The directory of a text that is not empty is that of its entry.
pub unquoted-text :
    (e : Entry) → IsEntry e → (length (text e) == 0) ≡ false → Stands (unquoted (text e)) (dir_of e)
unfolding unquoted
unquoted-text (plain []) is full = absurd (ground arith)
unquoted-text (plain (c ∷ dir)) is full =
    let whole : take (length (c ∷ dir)) (c ∷ dir) ≡ c ∷ dir =
      ap (λ s. take (length (c ∷ dir)) s) (sym (append-nil (c ∷ dir))) ∙ take-all (c ∷ dir) [] in
    let back : length (c ∷ dir) - 1 ≡ length dir = omega arith in
    let last = unit_at (c ∷ dir) (length (c ∷ dir) - 1) in
    let end : is_quote (if length (c ∷ dir) == 0 then c else last) ≡ false =
      ap (λ b. is_quote (if b then c else last)) full
      ∙ ap (λ n. is_quote (unit_at (c ∷ dir) n)) back
      ∙ ap is_quote (unit_at-last c dir)
      ∙ is.2 in
    let within : ltb (length (c ∷ dir)) (length (c ∷ dir)) ≡ false = ground arith in
    let at : List ℕ → List ℕ × ℕ = λ d.
      let e = if length d == 0 then c else unit_at d (length d - 1) in
      (d, if is_quote e then one_less (length d) else length d) in
    let told : Bool → List ℕ × ℕ =
      λ b. (c ∷ dir, if b then one_less (length (c ∷ dir)) else length (c ∷ dir)) in
    subst (λ p. Stands p (c ∷ dir))
      (sym (ap (λ b. at (if b then dir else c ∷ dir)) is.1 ∙ ap told end)) (within, whole)
unquoted-text (quoted q dir) is full =
    let len : length (dir ++ q ∷ []) ≡ length dir + 1 = length-append dir (q ∷ []) in
    let some_units : (length dir + 1 == 0) ≡ false = ground arith in
    let back : length dir + 1 - 1 ≡ length dir = omega arith in
    let fits : ltb (length dir + 1) (length dir) ≡ false = ground arith in
    rw (is.0, len, some_units, back, unit_at-end dir q, is.0, fits) (refl, take-all dir (q ∷ []))
