-- ===== src/SearchPath/Examples.antt =====
-- src/win/process.c: the search for `a` in the path `c;"d;e"`, where the file is `d;e\a.com`.
use libuv.Prelude.{
  ℕ, ◌+◌, ◌*◌, ◌^◌, ◌-◌, ◌<◌, ◌≤◌, ◌≡◌, refl, Bool, true, false, some, List, [], ◌∷◌, ◌==◌, length,
  arith,
}
use libuv.CommandLine.{quote}
use libuv.SearchPath.{
  Parts, path_parts, allocated, joined_path, search_path, search_dirs, search_loop, file_name_loop,
  skip, slice_at, upto, visit_slice, walk_ext, join_test, unquoted, overrun, found,
}
use libuv.SearchPath.Joining.{joined_path-le-allocated}
use libuv.SearchPath.Entries.{Entry, plain, quoted, path_text, dirs_of}
use libuv.SearchPath.Order.{first_in, search_path-first_in, search_path-overrun}

-- The files of a system are those whose paths have nine units, and there are no drives.
abbrev nine_units : List ℕ → Bool
nine_units s = length s == 9

abbrev no_drive : List ℕ → List ℕ → Bool
no_drive s t = false

abbrev two_entries : List Entry
two_entries = plain (b'c' ∷ []) ∷ quoted quote (b'd' ∷ b';' ∷ b'e' ∷ []) ∷ []

search_path-first_in_example :
    search_path nine_units no_drive (b'a' ∷ []) [] (some (path_text two_entries)) true false
    ≡ first_in nine_units no_drive (b'a' ∷ []) [] ([] ∷ dirs_of two_entries)
search_path-first_in_example =
    search_path-first_in nine_units no_drive (b'a' ∷ []) [] two_entries true false (refl, refl)
      ((refl, refl, refl), ((refl, refl), tt))

-- The file is found in the second entry.
found_there :
    search_path nine_units no_drive (b'a' ∷ []) [] (some (path_text two_entries)) true false
    ≡ found (b'd' ∷ b';' ∷ b'e' ∷ b'\\' ∷ b'a' ∷ b'.' ∷ b'c' ∷ b'o' ∷ b'm' ∷ [])
unfolding search_path search_dirs search_loop file_name_loop skip slice_at upto visit_slice walk_ext
    join_test unquoted joined_path path_parts
found_there = refl

search_path-overrun_example :
    (search_path nine_units no_drive (b'a' ∷ []) [] (some (quote ∷ [])) false false
      ≡ overrun (2 ^ 64 - 1))
    × (allocated 0 (2 ^ 64 - 1) 1 3 < 2 * (2 ^ 64 - 1))
search_path-overrun_example =
    search_path-overrun nine_units no_drive (b'a' ∷ []) [] quote 0 1 3 false (refl, refl) refl

-- A directory on no drive, below the current one.
abbrev below_root : Parts
below_root = record { cwd_len = 1; dir = b'd' ∷ [] }

below_root-parts : path_parts no_drive (b'd' ∷ []) (b'/' ∷ []) ≡ below_root
unfolding path_parts
below_root-parts = refl

joined_path-le-allocated_example :
    2 * (length (joined_path below_root (b'a' ∷ []) (b'e' ∷ []) (b'/' ∷ [])) + 1)
    ≤ allocated 1 1 1 1
joined_path-le-allocated_example =
    joined_path-le-allocated below_root (b'a' ∷ []) (b'e' ∷ []) (b'/' ∷ []) (omega arith)
