-- ===== src/SearchPath/Order.antt =====
-- src/win/process.c: `search_path` tries the directories of the path in their order.
use libuv.Prelude.{
  ℕ, zero, suc, ◌<◌, ◌≡◌, refl, ◌∙◌, ap, ◌⊎◌, inl, inr, Bool, true, false, not, ◌&&◌, ◌||◌,
  Bool-cases, Option, none, some, Option-cases, List, [], ◌∷◌, ◌++◌, ◌==◌, if◌then◌else◌, length,
  length-append, All, append_assoc, append-nil, take, ◌^◌, ◌*◌, ◌-◌, arith,
}
use libuv.CommandLine.{quote, wcsrev}
use libuv.SearchPath.{
  semicolon, colon, dot, apostrophe, is_slash, is_quote, unit_at, file_name_loop, name_has_ext,
  skip, slice_at, upto, unquoted, Search, found, not_found, overrun, walk_ext, visit_slice,
  search_loop, search_dirs, search_path, allocated,
}
use libuv.SearchPath.Entries.{
  Entry, plain, quoted, IsEntry, text, tail_text, path_text, dirs_of, slice_at-text, unquoted-text,
}

-- A file that is only a name, and not the name of the current directory.
abbrev pub is_name : List ℕ → Bool
is_name [] = true
is_name (c ∷ s) = not (is_slash c || c == colon) && is_name s

abbrev pub IsName : List ℕ → Type 0
IsName file =
    (is_name file ≡ true)
    × ((length file == 0 || (length file == 1 && unit_at file 0 == dot)) ≡ false)

file_name_loop-name :
    (s before name : List ℕ)
    → is_name s ≡ true
    → file_name_loop (wcsrev s ++ before) name ≡ file_name_loop before (s ++ name)
unfolding file_name_loop
file_name_loop-name [] before name is = refl
file_name_loop-name (c ∷ s) before name is =
    let other : (is_slash c || c == colon) ≡ false = ground arith in
    rw
      (
        append_assoc (wcsrev s) (c ∷ []) before,
        file_name_loop-name s (c ∷ before) name (ground arith),
        other,
      )
      refl

quote_cases : (q : ℕ) → is_quote q ≡ true → (q ≡ quote) ⊎ (q ≡ apostrophe)
quote_cases q is = ground arith

module _ (is_file : List ℕ → Bool) (same_drive : List ℕ → List ℕ → Bool) where
  -- The first file in some directories, in their order.
  pub first_in : List ℕ → List ℕ → List (List ℕ) → Search
  first_in file cwd [] = not_found
  first_in file cwd (dir ∷ dirs) =
      elim (walk_ext is_file same_drive dir file cwd (name_has_ext file)) [
        | some result ↦ found result
        | none ↦ first_in file cwd dirs
      ]

  -- A round that meets an entry visits its directory, or nothing.
  visit_slice-entry :
      (file cwd : List ℕ) (e : Entry) (es : List Entry)
      → IsEntry e
      → visit_slice is_file same_drive file cwd (text e) (first_in file cwd (dirs_of es))
        ≡ first_in file cwd (dirs_of (e ∷ es))
  unfolding visit_slice first_in
  visit_slice-entry file cwd e es is = elim (Bool-cases (length (text e) == 0)) [
    | inl empty ↦ rw empty refl
    | inr full ↦
        let (within, stands) = unquoted-text e is full in
        let (dir, dir_len) = unquoted (text e) in
        let visit : List ℕ → Search = λ d.
          elim (walk_ext is_file same_drive d file cwd (name_has_ext file)) [
            | some result ↦ found result
            | none ↦ first_in file cwd (dirs_of es)
          ] in
        rw full (
          ap (λ b. if b then overrun dir_len else visit (take dir_len dir)) within
          ∙ ap visit stands)
  ]

  round-entry :
      (fuel : ℕ) (file cwd : List ℕ) (first : Bool) (c : ℕ) (s : List ℕ) (e : Entry)
      (es : List Entry)
      → slice_at (skip first (c ∷ s)) ≡ (text e, tail_text es)
      → search_loop is_file same_drive fuel file cwd false (tail_text es)
        ≡ first_in file cwd (dirs_of es)
      → IsEntry e
      → search_loop is_file same_drive (suc fuel) file cwd first (c ∷ s)
        ≡ first_in file cwd (dirs_of (e ∷ es))
  unfolding search_loop
  round-entry fuel file cwd first c s e es slice rest is =
      let after = λ (p : List ℕ × List ℕ).
        visit_slice is_file same_drive file cwd p.0
          (search_loop is_file same_drive fuel file cwd false p.1) in
      ap after slice
      ∙ ap (visit_slice is_file same_drive file cwd (text e)) rest
      ∙ visit_slice-entry file cwd e es is

  search_loop-tail_text :
      (fuel : ℕ) (file cwd : List ℕ) (es : List Entry)
      → length (tail_text es) < fuel
      → All IsEntry es
      → search_loop is_file same_drive fuel file cwd false (tail_text es)
        ≡ first_in file cwd (dirs_of es)
  unfolding search_loop skip first_in
  search_loop-tail_text zero file cwd es enough are = absurd (omega arith)
  search_loop-tail_text (suc fuel) file cwd [] enough are = refl
  search_loop-tail_text (suc fuel) file cwd (e ∷ es) enough are =
      let shorter : length (tail_text es) < fuel =
        omega (arith, length-append (text e) (tail_text es)) in
      round-entry fuel file cwd false semicolon (text e ++ tail_text es) e es
        (slice_at-text e es are.0) (search_loop-tail_text fuel file cwd es shorter are.1) are.0

  -- The first round, where no separator is skipped.
  first_round :
      (fuel : ℕ) (file cwd : List ℕ) (e : Entry) (es : List Entry) (c : ℕ) (rest : List ℕ)
      → (c == semicolon) ≡ false
      → c ∷ rest ≡ text e ++ tail_text es
      → length (tail_text es) < fuel
      → All IsEntry (e ∷ es)
      → search_loop is_file same_drive (suc fuel) file cwd true (c ∷ rest)
        ≡ first_in file cwd (dirs_of (e ∷ es))
  unfolding skip
  first_round fuel file cwd e es c rest other is enough are =
      round-entry fuel file cwd true c rest e es
        (rw other (ap slice_at is ∙ slice_at-text e es are.0))
        (search_loop-tail_text fuel file cwd es enough are.1) are.0

  search_loop-path_text :
      (file cwd : List ℕ) (es : List Entry)
      → All IsEntry es
      → search_loop is_file same_drive (suc (length (path_text es))) file cwd true (path_text es)
        ≡ first_in file cwd (dirs_of es)
  unfolding search_loop skip first_in
  search_loop-path_text file cwd [] are = refl
  search_loop-path_text file cwd (plain [] ∷ []) are = refl
  search_loop-path_text file cwd (plain [] ∷ e ∷ es) are =
      search_loop-tail_text (suc (length (tail_text (e ∷ es)))) file cwd (e ∷ es) (omega arith)
        are.1
  search_loop-path_text file cwd (plain (c ∷ dir) ∷ es) are =
      first_round (suc (length (dir ++ tail_text es))) file cwd (plain (c ∷ dir)) es c
        (dir ++ tail_text es) (ground arith) refl (omega (arith, length-append dir (tail_text es)))
        are
  search_loop-path_text file cwd (quoted q dir ∷ es) are =
      let rest = dir ++ q ∷ [] ++ tail_text es in
      first_round (suc (length rest)) file cwd (quoted q dir) es q rest (ground arith) refl
        (omega (arith, length-append (dir ++ q ∷ []) (tail_text es))) are

  search_dirs-first_in :
      (file cwd : List ℕ) (es : List Entry) (cwd_first : Bool)
      → All IsEntry es
      → search_dirs is_file same_drive file cwd (some (path_text es)) cwd_first
        ≡ first_in file cwd (if cwd_first then [] ∷ dirs_of es else dirs_of es)
  unfolding search_dirs first_in
  search_dirs-first_in file cwd es false are = search_loop-path_text file cwd es are
  search_dirs-first_in file cwd es true are =
      elim (Option-cases (walk_ext is_file same_drive [] file cwd (name_has_ext file))) [
        | inl none_there ↦
            rw (search_dirs, first_in, none_there) (search_loop-path_text file cwd es are)
        | inr (result, e) ↦ rw (search_dirs, first_in, e) refl
      ]

  search_path-name :
      (file cwd : List ℕ) (path : Option (List ℕ)) (cwd_first exact_name : Bool)
      → IsName file
      → search_path is_file same_drive file cwd path cwd_first exact_name
        ≡ search_dirs is_file same_drive file cwd path cwd_first
  unfolding search_path file_name_loop
  search_path-name file cwd path cwd_first exact_name is =
      let whole = file_name_loop-name file [] [] is.0 in
      let at : file_name_loop (wcsrev file) [] ≡ ([], file) =
        rw⁻¹ (append-nil (wcsrev file)) (whole ∙ rw append-nil refl) in
      rw (search_path, is.1) (rw at refl)

  -- For a file that is only a name, and a path that is made of entries, `search_path` comes to the
  -- first file in the directories of the entries, in their order and whatever is quoted; entries of
  -- no units are passed over. Where it is wanted, the current directory comes before them.
  pub search_path-first_in :
      (file cwd : List ℕ) (es : List Entry) (cwd_first exact_name : Bool)
      → IsName file
      → All IsEntry es
      → search_path is_file same_drive file cwd (some (path_text es)) cwd_first exact_name
        ≡ first_in file cwd (if cwd_first then [] ∷ dirs_of es else dirs_of es)
  search_path-first_in file cwd es cwd_first exact_name is are =
      search_path-name file cwd (some (path_text es)) cwd_first exact_name is
      ∙ search_dirs-first_in file cwd es cwd_first are

  -- For a file that is only a name, a path that is a single quote, and where the current directory is
  -- not wanted first, `search_path` takes the quote for both ends of the slice, and joins with a
  -- `dir_len` of 2^64 - 1. For that the buffer has not as many bytes as `wcsncpy` then writes, whatever
  -- the other lengths are.
  pub search_path-overrun :
      (file cwd : List ℕ) (q cwd_len name_len ext_len : ℕ) (exact_name : Bool)
      → IsName file
      → is_quote q ≡ true
      → (search_path is_file same_drive file cwd (some (q ∷ [])) false exact_name
          ≡ overrun (2 ^ 64 - 1))
        × (allocated cwd_len (2 ^ 64 - 1) name_len ext_len < 2 * (2 ^ 64 - 1))
  unfolding search_dirs search_loop skip slice_at upto unquoted visit_slice allocated
  search_path-overrun file cwd q cwd_len name_len ext_len exact_name is is_q =
      (search_path-name file cwd (some (q ∷ [])) false exact_name is ∙ over, omega arith)
    where
      over : search_dirs is_file same_drive file cwd (some (q ∷ [])) false ≡ overrun (2 ^ 64 - 1)
      over = elim (quote_cases q is_q) [ inl e ↦ rw e refl | inr e ↦ rw e refl ]
