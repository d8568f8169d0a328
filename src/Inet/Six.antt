-- ===== src/Inet/Six.antt =====
-- src/inet.c: what `inet_pton6` stores stays inside `tmp`, and fills it.
use libuv.Prelude.{
  ℕ, zero, suc, ◌+◌, ◌-◌, ◌/◌, ◌%◌, ◌≤◌, ◌≡◌, refl, ◌∙◌, Bool, true, Option, none, some, List, [],
  ◌∷◌, ◌++◌, arith, All, All-append, ltb, leb, ◌==◌, ==_iff, if◌then◌else◌, ◌>>=◌, length,
  length-append, set, length-set, replicate, length-replicate, inl, inr, Bool-cases, Option-cases,
  bind-eq-some,
}
use libuv.Text.{char_at}
use libuv.Inet.{
  xdigit, Groups, Next, fail, stop, go_on, put_group, xdigit_step, colon_step, period_step,
  group_step, group_loop, shift, last_group, fill, leading, no_groups, inet_pton4, inet_pton6,
}
use libuv.Inet.Four.{inet_pton4_iff}

abbrev IsByte : ℕ → Type 0
IsByte n = n ≤ 255

-- What holds of the variables between two characters: `tp` and `colonp` point into `tmp`.
record IsGroups (g : Groups) : Type 0 where
  room : length g.out ≤ 16
  bytes : All IsByte g.out
  colon : (p : ℕ) → g.colonp ≡ some p → p ≤ length g.out

put_group-some :
    (g g' : Groups)
    → put_group g ≡ some g'
    → (length g.out + 2 ≤ 16)
      × (record g { out = g.out ++ g.val / 256 % 256 ∷ g.val % 256 ∷ []; seen_xdigits = 0; val = 0 }
          ≡ g')
unfolding put_group
put_group-some g g' run = ground arith

put_group-IsGroups : (g g' : Groups) → IsGroups g → put_group g ≡ some g' → IsGroups g'
put_group-IsGroups g g' v run =
    let (room, is) = put_group-some g g' run in
    let two = g.val / 256 % 256 ∷ g.val % 256 ∷ [] in
    rw (← is) (record {
      room = omega (arith, length-append g.out two);
      bytes = All-append IsByte g.out two v.bytes (omega arith);
      colon = λ p e. omega (arith, length-append g.out two, v.colon p e);
    })

-- The step ends the loop or goes on in a state that is sound.
abbrev Sound : Next → Type 0
Sound fail = Unit
Sound (stop g) = IsGroups g
Sound (go_on g) = IsGroups g

xdigit_step-Sound : (g : Groups) (d : ℕ) → IsGroups g → Sound (xdigit_step g d)
unfolding xdigit_step
xdigit_step-Sound g d v = elim (Bool-cases (ltb 4 (g.seen_xdigits + 1))) [
  | inl many ↦ rw many tt
  | inr few ↦ rw few (record { room = v.room; bytes = v.bytes; colon = v.colon })
]

colon_step-Sound : (g : Groups) (s : List ℕ) → IsGroups g → Sound (colon_step g s)
unfolding colon_step
colon_step-Sound g s v = elim (Bool-cases (g.seen_xdigits == 0)) [
  | inl first ↦ elim (Option-cases g.colonp) [
    | inl e ↦ rw (first, e) (record { room = v.room; bytes = v.bytes; colon = λ p f. ground arith })
    | inr (p, e) ↦ rw (first, e) tt
  ]
  | inr group ↦ elim (Bool-cases (length s == 0)) [
    | inl ended ↦ rw (group, ended) tt
    | inr more ↦ elim (Option-cases (put_group (record g { curtok = s }))) [
      | inl e ↦ rw (group, more, e) tt
      | inr (g', e) ↦
          rw (group, more, e)
            (put_group-IsGroups (record g { curtok = s }) g'
              (record { room = v.room; bytes = v.bytes; colon = v.colon }) e)
    ]
  ]
]

period_step-Sound : (g : Groups) → IsGroups g → Sound (period_step g)
unfolding period_step
period_step-Sound g v = elim (Bool-cases (leb (length g.out + 4) 16)) [
  | inr full ↦ rw full tt
  | inl fits ↦ elim (Option-cases (inet_pton4 g.curtok)) [
    | inl e ↦ rw (fits, e) tt
    | inr (tail, e) ↦
        let (four, bytes, _) = (inet_pton4_iff g.curtok tail).0 e in
        rw (fits, e)
          (record {
            room = ground (arith, length-append g.out tail);
            bytes = All-append IsByte g.out tail v.bytes bytes;
            colon = λ p f. omega (arith, length-append g.out tail, v.colon p f);
          })
  ]
]

group_step-Sound : (g : Groups) (c : ℕ) (s : List ℕ) → IsGroups g → Sound (group_step g c s)
unfolding group_step
group_step-Sound g c s v = elim (Option-cases (xdigit c)) [
  | inr (d, e) ↦ rw (e, group_step) (xdigit_step-Sound g d v)
  | inl e ↦ elim (Bool-cases (c == b':')) [
    | inl colon ↦ rw (e, colon, group_step) (colon_step-Sound g s v)
    | inr other ↦ elim (Bool-cases (c == b'.')) [
      | inl period ↦ rw (e, other, period, group_step) (period_step-Sound g v)
      | inr bad ↦ rw (e, other, bad, group_step) tt
    ]
  ]
]

group_loop-IsGroups :
    (s : List ℕ) (g g' : Groups) → IsGroups g → group_loop g s ≡ some g' → IsGroups g'
unfolding group_loop
group_loop-IsGroups [] g g' v run = let is : g ≡ g' = cc in rw (← is) v
group_loop-IsGroups (c ∷ s) g g' v run =
    cases (group_step g c s) refl (group_step-Sound g c s v) (group_loop-IsGroups s)
  where
    cases :
        (n : Next)
        → group_step g c s ≡ n
        → Sound (group_step g c s)
        → ((h h' : Groups) → IsGroups h → group_loop h s ≡ some h' → IsGroups h')
        → IsGroups g'
    cases fail e sound ih =
        let bad : ◌≡◌ {A = Option Groups} none (some g') = rw (e, group_loop) at run in cc
    cases (stop h) e sound ih =
        let last : ◌≡◌ {A = Option Groups} (some h) (some g') = rw (e, group_loop) at run in
        let is : h ≡ g' = cc in let found : IsGroups h = rw e at sound in rw (← is) found
    cases (go_on h) e sound ih =
        let rest : group_loop h s ≡ some g' = rw (e, group_loop) at run in
        ih h g' (rw e at sound) rest

last_group-IsGroups : (g g' : Groups) → IsGroups g → last_group g ≡ some g' → IsGroups g'
unfolding last_group
last_group-IsGroups g g' v run = elim (Bool-cases (g.seen_xdigits == 0)) [
  | inl done ↦
      let last : ◌≡◌ {A = Option Groups} (some g) (some g') = rw done at run in
      let is : g ≡ g' = cc in rw (← is) v
  | inr group ↦ put_group-IsGroups g g' v (rw group at run)
]

-- An IPv6 address: 16 bytes.
abbrev pub IsSixteen : List ℕ → Type 0
IsSixteen b = (length b ≡ 16) × All (λ n. n ≤ 255) b

char_at-IsByte : (b : List ℕ) (i : ℕ) → All IsByte b → IsByte (char_at b i)
char_at-IsByte [] i all = omega arith
char_at-IsByte (x ∷ b) zero all = all.0
char_at-IsByte (x ∷ b) (suc i) all = char_at-IsByte b i all.1

set-All : (b : List ℕ) (i v : ℕ) → IsByte v → All IsByte b → All IsByte (set b i v)
set-All [] i v h all = tt
set-All (x ∷ b) zero v h all = (h, all.1)
set-All (x ∷ b) (suc i) v h all = (all.0, set-All b i v h all.1)

shift-IsSixteen :
    (rounds i n p : ℕ) (tmp : List ℕ) → IsSixteen tmp → IsSixteen (shift rounds i n p tmp)
unfolding shift
shift-IsSixteen zero i n p tmp v = v
shift-IsSixteen (suc rounds) i n p tmp v =
    let moved = char_at tmp (p + n - i) in
    let once = set tmp (16 - i) moved in
    shift-IsSixteen rounds (i + 1) n p (set once (p + n - i) 0) (
      length-set once (p + n - i) 0 ∙ length-set tmp (16 - i) moved ∙ v.0,
      set-All once (p + n - i) 0 (omega arith)
          (set-All tmp (16 - i) moved (char_at-IsByte tmp (p + n - i) v.1) v.1),
    )

zeros-All : (n : ℕ) → All IsByte (replicate n 0)
zeros-All zero = tt
zeros-All (suc n) = (omega arith, zeros-All n)

fill-IsSixteen : (g : Groups) (b : List ℕ) → IsGroups g → fill g ≡ some b → IsSixteen b
unfolding fill
fill-IsSixteen g b v run = elim (Option-cases g.colonp) [
  | inl e ↦
      let run' : (if length g.out == 16 then some g.out else none) ≡ some b = rw e at run in
      let (full, is) = whole (length g.out == 16) g.out b run' in
      rw (← is) ((==_iff (length g.out) 16).0 full, v.bytes)
  | inr (p, e) ↦
      let tmp = g.out ++ replicate (16 - length g.out) 0 in
      let n = length g.out - p in
      let run' : (if length g.out == 16 then none else some (shift n 1 n p tmp)) ≡ some b =
        rw e at run in
      let is = shifted (length g.out == 16) (shift n 1 n p tmp) b run' in
      rw (← is) (
        shift-IsSixteen n 1 n p tmp (
          omega (
            arith,
            length-append g.out (replicate (16 - length g.out) 0),
            length-replicate {A = ℕ} (16 - length g.out) 0,
            v.room,
          ),
          All-append IsByte g.out (replicate (16 - length g.out) 0) v.bytes
              (zeros-All (16 - length g.out)),
        ))
]
  where
    whole : (t : Bool) (x y : List ℕ) → (if t then some x else none) ≡ some y → (t ≡ true) × (x ≡ y)
    whole t x y h = ground arith

    shifted : (t : Bool) (x y : List ℕ) → (if t then none else some x) ≡ some y → x ≡ y
    shifted t x y h = ground arith

-- If `inet_pton6` accepts a string, it has written all of the 16 bytes of the address, and no
-- more.
pub inet_pton6-IsSixteen : (s b : List ℕ) → inet_pton6 s ≡ some b → IsSixteen b
unfolding inet_pton6
inet_pton6-IsSixteen src b run =
    let (s, _, looped) =
      bind-eq-some (leading src)
        (λ s. group_loop (no_groups s) s >>= λ g. last_group g >>= λ g'. fill g') run in
    let (g, loop, rest) =
      bind-eq-some (group_loop (no_groups s) s) (λ g. last_group g >>= λ g'. fill g') looped in
    let (g', last, filled) = bind-eq-some (last_group g) (λ g'. fill g') rest in
    fill-IsSixteen g' b
      (last_group-IsGroups g g' (group_loop-IsGroups s (no_groups s) g start loop) last) filled
  where
    start : {t : List ℕ} → IsGroups (no_groups t)
    start = record { room = omega arith; bytes = tt; colon = λ p e. absurd (ground arith) }
