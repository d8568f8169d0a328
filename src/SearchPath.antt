-- ===== src/SearchPath.antt =====
-- src/win/process.c: the search for the file of a program.
-- A wide string is the list of its units before the NUL. The tests of the system are parameters:
-- `is_file` says of a path that its attributes can be read and are not those of a directory, and
-- `same_drive` compares two units of two strings as `_wcsnicmp` does. A failure of `uv__malloc`,
-- whose result the code does not check, is not modelled.
pub mod Joining
pub mod Entries
pub mod Order
mod Examples
use libuv.Prelude.{
  ℕ, zero, suc, ◌+◌, Bool, true, false, not, ◌&&◌, ◌||◌, Option, none, some, List, [], ◌∷◌, ◌++◌,
  ◌==◌, ltb, leb, if◌then◌else◌, length, drop, take, ◌-◌, ◌*◌, ◌%◌, ◌^◌,
}
use libuv.CommandLine.{quote, backslash, wcsrev, wide_string}

abbrev pub slash : ℕ
slash = 0x2f

abbrev pub colon : ℕ
colon = 0x3a

abbrev pub semicolon : ℕ
semicolon = 0x3b

abbrev pub dot : ℕ
dot = 0x2e

abbrev pub apostrophe : ℕ
apostrophe = 0x27

abbrev pub is_slash : ℕ → Bool
is_slash c = c == backslash || c == slash

abbrev pub is_quote : ℕ → Bool
is_quote c = c == quote || c == apostrophe

-- `s[i]`, with the NUL behind the last unit.
abbrev pub unit_at : List ℕ → ℕ → ℕ
unit_at [] i = 0
unit_at (c ∷ s) zero = c
unit_at (c ∷ s) (suc i) = unit_at s i

abbrev pub last_unit : List ℕ → ℕ
last_unit [] = 0
last_unit (c ∷ []) = c
last_unit (c ∷ d ∷ s) = last_unit (d ∷ s)

-- `wcsncpy`: a short source is filled up with NULs.
abbrev pub wcsncpy : List ℕ → ℕ → List ℕ
wcsncpy s zero = []
wcsncpy [] (suc n) = 0 ∷ wcsncpy [] n
wcsncpy (c ∷ s) (suc n) = c ∷ wcsncpy s n

-- `wcsrchr(L"\\/:", c)` is not `NULL`: it also finds the NUL of its string.
abbrev pub ends_dir : ℕ → Bool
ends_dir c = is_slash c || (c == colon || c == 0)

-- A separator, if what was just written is not empty and does not end with one.
abbrev pub separated : ℕ → List ℕ → List ℕ
separated len out =
    if ltb 0 len && not (ends_dir (last_unit out)) then out ++ backslash ∷ [] else out

-- The path that is written: how much of the current directory is copied, and what follows it.
pub record Parts : Type 0 where
  pub cwd_len : ℕ
  pub dir : List ℕ

pub path_parts : (List ℕ → List ℕ → Bool) → List ℕ → List ℕ → Parts
path_parts same_drive dir cwd =
    if ltb 2 (length dir) && (is_slash (unit_at dir 0) && is_slash (unit_at dir 1))
    then record { cwd_len = 0; dir = dir }
    else if leb 1 (length dir) && is_slash (unit_at dir 0)
    then record { cwd_len = 2; dir = dir }
    else if leb 2 (length dir)
        && (unit_at dir 1 == colon && (ltb (length dir) 3 || not (is_slash (unit_at dir 2))))
    then if ltb (length cwd) 2 || not (same_drive cwd dir)
      then record { cwd_len = 0; dir = dir }
      else record { cwd_len = length cwd; dir = drop 2 dir }
    else if ltb 2 (length dir) && unit_at dir 1 == colon
    then record { cwd_len = 0; dir = dir }
    else record { cwd_len = length cwd; dir = dir }

-- The bytes that the buffer has room for, a `size_t`; a unit has two.
pub allocated : ℕ → ℕ → ℕ → ℕ → ℕ
allocated cwd_len dir_len name_len ext_len =
    2 * (cwd_len + 1 + dir_len + 1 + name_len + 1 + ext_len + 1) % 2 ^ 64

-- The units that are written to it, less the NUL.
pub joined_path : Parts → List ℕ → List ℕ → List ℕ → List ℕ
joined_path p name ext cwd =
    let in_cwd = separated p.cwd_len (wcsncpy cwd p.cwd_len) in
    let in_dir = separated (length p.dir) (in_cwd ++ p.dir) in
    let named = in_dir ++ name in
    if ltb 0 (length ext)
    then (if ltb 0 (length name) && not (last_unit named == dot) then named ++ dot ∷ [] else named)
      ++ ext
    else named

-- The loop that walks back to the start of the name: the units before it, the last one first.
pub file_name_loop : List ℕ → List ℕ → List ℕ × List ℕ
file_name_loop [] name = ([], name)
file_name_loop (c ∷ before) name =
    if is_slash c || c == colon
    then (wcsrev (c ∷ before), name)
    else file_name_loop before (c ∷ name)

-- `dot != NULL && dot[1] != L'\0'`, for the first dot.
abbrev pub name_has_ext : List ℕ → Bool
name_has_ext [] = false
name_has_ext (c ∷ s) = if c == dot then ltb 0 (length s) else name_has_ext s

-- `wcschr`: what stands before the first `c`, and the string from there on.
pub upto : ℕ → List ℕ → List ℕ × List ℕ
upto c [] = ([], [])
upto c (x ∷ s) = let (before, from) = upto c s in if x == c then ([], x ∷ s) else (x ∷ before, from)

-- `dir_start`, from `dir_end`; `first` says that `dir_end` is still `path`.
pub skip : Bool → List ℕ → List ℕ
skip first [] = []
skip first (c ∷ s) = if not first || c == semicolon then s else c ∷ s

-- The slice at `dir_start`, and the string at the new `dir_end`.
pub slice_at : List ℕ → List ℕ × List ℕ
unfolding upto
slice_at [] = ([], [])
slice_at (c ∷ s) =
    let (inside, closing) = upto c s in
    let (more, from) = upto semicolon closing in
    if is_quote c then (c ∷ (inside ++ more), from) else upto semicolon (c ∷ s)

-- `--dir_len`, of a `size_t`.
abbrev pub one_less : ℕ → ℕ
one_less n = if n == 0 then 2 ^ 64 - 1 else n - 1

-- The string at `dir_path`, up to the end of a slice that is not empty, and `dir_len`. Where `dir_len`
-- is 0 the unit at `dir_path[dir_len - 1]` is the one before `dir_path`, the first of the slice.
pub unquoted : List ℕ → List ℕ × ℕ
unquoted slice =
    let dir = if is_quote (unit_at slice 0) then drop 1 slice else slice in
    let end = if length dir == 0 then unit_at slice 0 else unit_at dir (length dir - 1) in
    (dir, if is_quote end then one_less (length dir) else length dir)

-- What a search comes to: a file, no file, a join with a `dir_len` beyond the end of the string, whose
-- units all get written, or a loop that is still running when the fuel is used up.
pub data Search : Type 0 where
  found : List ℕ → Search
  overrun : ℕ → Search
  not_found running : Search

module _ (is_file : List ℕ → Bool) (same_drive : List ℕ → List ℕ → Bool) where
  pub join_test : List ℕ → List ℕ → List ℕ → List ℕ → Option (List ℕ)
  unfolding joined_path
  join_test dir name ext cwd =
      let result = wide_string (joined_path (path_parts same_drive dir cwd) name ext cwd) in
      if is_file result then some result else none

  pub walk_ext : List ℕ → List ℕ → List ℕ → Bool → Option (List ℕ)
  unfolding join_test
  walk_ext dir name cwd has_ext = elim (if has_ext then join_test dir name [] cwd else none) [
    | some result ↦ some result
    | none ↦ elim (join_test dir name (b'c' ∷ b'o' ∷ b'm' ∷ []) cwd) [
      | some result ↦ some result
      | none ↦ join_test dir name (b'e' ∷ b'x' ∷ b'e' ∷ []) cwd
    ]
  ]

  -- What a round comes to with its slice, `rest` being what the rounds behind it come to.
  pub visit_slice : List ℕ → List ℕ → List ℕ → Search → Search
  unfolding unquoted walk_ext
  visit_slice file cwd slice rest =
      let (dir, dir_len) = unquoted slice in
      if length slice == 0
      then rest
      else if ltb (length dir) dir_len
      then overrun dir_len
      else elim (walk_ext (take dir_len dir) file cwd (name_has_ext file)) [
        | some result ↦ found result
        | none ↦ rest
      ]

  -- The `while` over the path, from `dir_end`. Behind the first round `dir_end` is beyond `path`:
  -- the path is not empty, and the slice of a path that begins with no separator is not either.
  pub search_loop : ℕ → List ℕ → List ℕ → Bool → List ℕ → Search
  unfolding skip slice_at visit_slice
  search_loop zero file cwd first rest = running
  search_loop (suc fuel) file cwd first [] = not_found
  search_loop (suc fuel) file cwd first (c ∷ s) =
      let (slice, from) = slice_at (skip first (c ∷ s)) in
      visit_slice file cwd slice (search_loop fuel file cwd false from)

  abbrev pub answer : Option (List ℕ) → Search
  answer none = not_found
  answer (some result) = found result

  -- The branch for a file that is only a name: the current directory, then the path.
  pub search_dirs : List ℕ → List ℕ → Option (List ℕ) → Bool → Search
  unfolding search_loop
  search_dirs file cwd path cwd_first =
      elim (if cwd_first then walk_ext [] file cwd (name_has_ext file) else none) [
        | some result ↦ found result
        | none ↦ elim path [
          | none ↦ not_found
          | some units ↦ search_loop (suc (length units)) file cwd true units
        ]
      ]

  -- `search_path`. A path that is `NULL` is `none`. `cwd_first` is what
  -- `NeedCurrentDirectoryForExePathW` says, and `exact_name` the flag of the caller.
  pub search_path : List ℕ → List ℕ → Option (List ℕ) → Bool → Bool → Search
  unfolding file_name_loop search_dirs
  search_path file cwd path cwd_first exact_name =
      if length file == 0 || (length file == 1 && unit_at file 0 == dot)
      then not_found
      else let (dir, name) = file_name_loop (wcsrev file) [] in
        if ltb 0 (length dir)
        then answer (walk_ext dir name cwd (name_has_ext name || exact_name))
        else search_dirs file cwd path cwd_first
