-- ===== src/SearchPath/Joining.antt =====
-- src/win/process.c: `search_path_join_test` stays within the buffer that it allocates.
use libuv.Prelude.{
  ℕ, zero, suc, ◌+◌, ◌≤◌, ◌≡◌, refl, ap, List, [], ◌∷◌, ◌++◌, length, length-append, ◌*◌, ◌<◌, ◌^◌,
  arith,
}
use libuv.CommandLine.{backslash}
use libuv.SearchPath.{dot, wcsncpy, separated, Parts, allocated, joined_path}

length-wcsncpy : (s : List ℕ) (n : ℕ) → length (wcsncpy s n) ≡ n
length-wcsncpy s zero = refl
length-wcsncpy [] (suc n) = ap suc (length-wcsncpy [] n)
length-wcsncpy (c ∷ s) (suc n) = ap suc (length-wcsncpy s n)

length-separated-le : (len : ℕ) (out : List ℕ) → length (separated len out) ≤ length out + 1
length-separated-le len out = ground (arith, length-append out (backslash ∷ []))

-- The units that are written, with the NUL.
length-joined_path-le :
    (p : Parts) (name ext cwd : List ℕ)
    → length (joined_path p name ext cwd) + 1
      ≤ p.cwd_len + 1 + length p.dir + 1 + length name + 1 + length ext + 1
unfolding joined_path
length-joined_path-le p name ext cwd =
    let copied = wcsncpy cwd p.cwd_len in
    let in_cwd = separated p.cwd_len copied in
    let in_dir = separated (length p.dir) (in_cwd ++ p.dir) in
    let named = in_dir ++ name in
    let room : length named ≤ p.cwd_len + 1 + length p.dir + 1 + length name = omega (
      arith,
      length-wcsncpy cwd p.cwd_len,
      length-separated-le p.cwd_len copied,
      length-append in_cwd p.dir,
      length-separated-le (length p.dir) (in_cwd ++ p.dir),
      length-append in_dir name,
    ) in
    ground (
      arith,
      room,
      length-append named (dot ∷ []),
      length-append named ext,
      length-append (named ++ dot ∷ []) ext,
    )

allocated-exact :
    (cwd_len dir_len name_len ext_len : ℕ)
    → 2 * (cwd_len + 1 + dir_len + 1 + name_len + 1 + ext_len + 1) < 2 ^ 64
    → allocated cwd_len dir_len name_len ext_len
      ≡ 2 * (cwd_len + 1 + dir_len + 1 + name_len + 1 + ext_len + 1)
unfolding allocated
allocated-exact cwd_len dir_len name_len ext_len small = omega arith

-- Where the size of the buffer does not wrap, the path that `search_path_join_test` writes, with its
-- NUL, fits into the buffer that it allocates, whatever its parts, the name, the extension and the
-- current directory are.
pub joined_path-le-allocated :
    (p : Parts) (name ext cwd : List ℕ)
    → 2 * (p.cwd_len + 1 + length p.dir + 1 + length name + 1 + length ext + 1) < 2 ^ 64
    → 2 * (length (joined_path p name ext cwd) + 1)
      ≤ allocated p.cwd_len (length p.dir) (length name) (length ext)
joined_path-le-allocated p name ext cwd small = omega (
  arith,
  small,
  length-joined_path-le p name ext cwd,
  allocated-exact p.cwd_len (length p.dir) (length name) (length ext) small,
)
