-- ===== src/Inet.antt =====
-- src/inet.c: addresses from and to text.
-- A string is the list of its bytes before the terminating NUL, as in `Text`. An address is the
-- list of its bytes. `strchr`, `snprintf` and `memcpy` are those of the C library.
pub mod Print
pub mod Decimal
pub mod Four
pub mod Text
pub mod Six
mod Examples
use libuv.Prelude.{
  ℕ, zero, suc, ◌+◌, ◌-◌, ◌*◌, ◌/◌, ◌%◌, ◌^◌, Bool, true, false, not, ◌&&◌, ◌||◌, Option, none,
  some, List, [], ◌∷◌, ◌++◌, ltb, leb, ◌==◌, if◌then◌else◌, ◌>>=◌, length, set, take, drop,
  replicate,
}
use libuv.Errno.{uv_einval, uv_eafnosupport, Status, ok, failed}
use libuv.Text.{char_at}
use libuv.Inet.Print.{inet_ntop4, inet_ntop6}

-- `strchr(digits, ch)`, as the index that the code computes from it.
pub digit : ℕ → Option ℕ
digit c = if leb b'0' c && leb c b'9' then some (c - b'0') else none

-- `strchr` in `xdigits_l`, then in `xdigits_u`.
unfoldable pub xdigit : ℕ → Option ℕ
xdigit c =
    if leb b'0' c && leb c b'9'
    then some (c - b'0')
    else if leb b'a' c && leb c b'f'
    then some (c - b'a' + 10)
    else if leb b'A' c && leb c b'F'
    then some (c - b'A' + 10)
    else none

-- The variables of `inet_pton4`: the octets of `tmp` before `tp`, `*tp`, and the other two.
pub record Octets : Type 0 where
  pub before : List ℕ
  pub current : ℕ
  pub saw_digit : Bool
  pub octets : ℕ

-- A digit, with its value.
pub digit_step : Octets → ℕ → Option Octets
digit_step o d =
    let nw = o.current * 10 + d in
    if o.saw_digit && o.current == 0
    then none
    else if ltb 255 nw
    then none
    else if o.saw_digit
    then some (record o { current = nw })
    else if ltb 4 (o.octets + 1)
    then none
    else some (record o { current = nw; octets = o.octets + 1; saw_digit = true })

-- A dot behind a digit starts the next octet.
pub dot_step : Octets → Option Octets
dot_step o =
    if o.octets == 4
    then none
    else some (record o { before = o.before ++ o.current ∷ []; current = 0; saw_digit = false })

pub char_step : Octets → ℕ → Option Octets
unfolding digit_step dot_step
char_step o c = elim (digit c) [
  | some d ↦ digit_step o d
  | none ↦ if c == b'.' && o.saw_digit then dot_step o else none
]

-- The `while` loop, and the result behind it.
pub octet_loop : Octets → List ℕ → Option (List ℕ)
octet_loop o [] = if ltb o.octets 4 then none else some (o.before ++ o.current ∷ [])
octet_loop o (c ∷ s) = elim (char_step o c) [ none ↦ none | some o' ↦ octet_loop o' s ]

abbrev pub no_octets : Octets
no_octets = record { before = []; current = 0; saw_digit = false; octets = 0 }

-- `none` is UV_EINVAL.
pub inet_pton4 : List ℕ → Option (List ℕ)
inet_pton4 s = octet_loop no_octets s

-- The variables of `inet_pton6`: the bytes of `tmp` before `tp`, the places of `colonp` and
-- `curtok`, and the other two.
pub record Groups : Type 0 where
  pub out : List ℕ
  pub colonp : Option ℕ
  pub curtok : List ℕ
  pub seen_xdigits : ℕ
  pub val : ℕ

pub data Next : Type 0 where
  fail : Next
  stop go_on : Groups → Next

-- `*tp++ = val >> 8; *tp++ = val;` unless there is no room, and the next group.
pub put_group : Groups → Option Groups
put_group g =
    if ltb 16 (length g.out + 2)
    then none
    else some (record g {
      out = g.out ++ g.val / 256 % 256 ∷ g.val % 256 ∷ [];
      seen_xdigits = 0;
      val = 0;
    })

-- The three cases of the loop's body. `s` is what follows the character.
xdigit_step : Groups → ℕ → Next
xdigit_step g d =
    if ltb 4 (g.seen_xdigits + 1)
    then fail
    else go_on (record g { val = (g.val * 16 + d) % 2 ^ 32; seen_xdigits = g.seen_xdigits + 1 })

colon_step : Groups → List ℕ → Next
colon_step g s =
    if g.seen_xdigits == 0
    then elim g.colonp [
      | some _ ↦ fail
      | none ↦ go_on (record g { curtok = s; colonp = some (length g.out) })
    ]
    else if length s == 0
    then fail
    else elim (put_group (record g { curtok = s })) [ none ↦ fail | some g' ↦ go_on g' ]

period_step : Groups → Next
period_step g =
    if leb (length g.out + 4) 16
    then elim (inet_pton4 g.curtok) [
      | some tail ↦ stop (record g { out = g.out ++ tail; seen_xdigits = 0 })
      | none ↦ fail
    ]
    else fail

pub group_step : Groups → ℕ → List ℕ → Next
unfolding xdigit_step colon_step period_step
group_step g c s = elim (xdigit c) [
  | some d ↦ xdigit_step g d
  | none ↦ if c == b':' then colon_step g s else if c == b'.' then period_step g else fail
]

pub group_loop : Groups → List ℕ → Option Groups
group_loop g [] = some g
group_loop g (c ∷ s) = elim (group_step g c s) [
  | fail ↦ none
  | stop g' ↦ some g'
  | go_on g' ↦ group_loop g' s
]

-- `for (i = 1; i <= n; i++) { endp[-i] = colonp[n - i]; colonp[n - i] = 0; }`, by the rounds left.
pub shift : ℕ → ℕ → ℕ → ℕ → List ℕ → List ℕ
shift zero i n colonp tmp = tmp
shift (suc rounds) i n colonp tmp =
    shift rounds (i + 1) n colonp
      (set (set tmp (16 - i) (char_at tmp (colonp + n - i))) (colonp + n - i) 0)

-- What follows the loop.
pub last_group : Groups → Option Groups
last_group g = if g.seen_xdigits == 0 then some g else put_group g

pub fill : Groups → Option (List ℕ)
fill g = elim g.colonp [
  | none ↦ if length g.out == 16 then some g.out else none
  | some colonp ↦
      let n = length g.out - colonp in
      let tmp = g.out ++ replicate (16 - length g.out) 0 in
      if length g.out == 16 then none else some (shift n 1 n colonp tmp)
]

-- A leading colon must be one of two; `curtok` is at the second.
leading : List ℕ → Option (List ℕ)
leading [] = some []
leading (c ∷ s) = if c == b':' then (if char_at s 0 == b':' then some s else none) else some (c ∷ s)

abbrev pub no_groups : List ℕ → Groups
no_groups s = record { out = []; colonp = none; curtok = s; seen_xdigits = 0; val = 0 }

pub inet_pton6 : List ℕ → Option (List ℕ)
inet_pton6 src =
    leading src >>= λ s. group_loop (no_groups s) s >>= λ g. last_group g >>= λ g'. fill g'

-- The address families that the code tells apart.
pub data Family : Type 0 where
  af_inet af_inet6 af_other : Family

-- `strchr(src, '%')`: what stands before the zone, if there is one.
before_zone : List ℕ → Option (List ℕ)
before_zone [] = none
before_zone (c ∷ s) =
    let rest = before_zone s in
    if c == b'%' then some [] else elim rest [ none ↦ none | some t ↦ some (c ∷ t) ]

-- The result of one of the two parsers, as 0 or UV_EINVAL.
result : Option (List ℕ) → Status × Option (List ℕ)
result none = (failed uv_einval, none)
result (some bytes) = (ok, some bytes)

-- `src` and `dst` may be null. A successful call gives the bytes that are written to `dst`.
pub uv_inet_pton : Family → Option (List ℕ) → Bool → Status × Option (List ℕ)
uv_inet_pton af none dst = (failed uv_einval, none)
uv_inet_pton af (some src) false = (failed uv_einval, none)
uv_inet_pton af_inet (some src) true = result (inet_pton4 src)
uv_inet_pton af_inet6 (some src) true = elim (before_zone src) [
  | none ↦ result (inet_pton6 src)
  | some s ↦ if ltb 45 (length s) then (failed uv_einval, none) else result (inet_pton6 s)
]
uv_inet_pton af_other (some src) true = (failed uv_eafnosupport, none)

pub uv_inet_ntop : Family → List ℕ → List ℕ → ℕ → Status × List ℕ
uv_inet_ntop af_inet src dst size = inet_ntop4 src dst size
uv_inet_ntop af_inet6 src dst size = inet_ntop6 src dst size
uv_inet_ntop af_other src dst size = (failed uv_eafnosupport, dst)
