-- ===== src/Inet/Four.antt =====
-- src/inet.c: `inet_pton4` accepts exactly the texts that `inet_ntop4` writes.
use libuv.Prelude.{
  ℕ, ◌+◌, ◌*◌, ◌/◌, ◌%◌, ◌≤◌, ◌<◌, ◌≡◌, ◌≢◌, refl, sym, ap, ◌∙◌, ◌↔◌, Bool, true, false, ◌&&◌,
  Option, none, some, List, [], ◌∷◌, ◌++◌, append-nil, append_assoc, arith, All, All-append, ltb,
  ◌==◌, if◌then◌else◌, length, length-append, inl, inr, Bool-cases, one_if,
}
use libuv.Inet.{digit, Octets, digit_step, dot_step, char_step, octet_loop, no_octets, inet_pton4}
use libuv.Inet.Print.{decimal}
use libuv.Inet.Decimal.{decimal-three_digits, decimal-digit, decimal-first}

-- The octets before the current one, each with its dot.
abbrev dotted : List ℕ → List ℕ
dotted [] = []
dotted (n ∷ before) = decimal n ++ b'.' ∷ dotted before

-- The text that the loop has read.
abbrev read : Octets → List ℕ
read o = dotted o.before ++ (if o.saw_digit then decimal o.current else [])

-- What holds of the variables between two characters.
record IsOctets (o : Octets) : Type 0 where
  counted : o.octets ≡ length o.before + one_if o.saw_digit
  fresh : o.saw_digit ≡ false → o.current ≡ 0
  small : o.current ≤ 255
  most : o.octets ≤ 4
  expects : o.saw_digit ≡ false → o.octets ≤ 3
  bytes : All (λ n. n ≤ 255) o.before

dotted-append :
    (before : List ℕ) (n : ℕ)
    → dotted (before ++ n ∷ []) ≡ dotted before ++ (decimal n ++ b'.' ∷ [])
dotted-append [] n = refl
dotted-append (m ∷ before) n =
    rw (dotted-append before n)
      (sym (append_assoc (decimal m) (b'.' ∷ dotted before) (decimal n ++ b'.' ∷ [])))

-- The two ways in which a digit is taken.
digit_step-more :
    (o o' : Octets) (d : ℕ)
    → o.saw_digit ≡ true
    → digit_step o d ≡ some o'
    → (o.current ≢ 0)
      × (o.current * 10 + d ≤ 255)
      × (record o { current = o.current * 10 + d } ≡ o')
unfolding digit_step
digit_step-more o o' d saw run = ground arith

digit_step-first :
    (o o' : Octets) (d : ℕ)
    → o.saw_digit ≡ false
    → digit_step o d ≡ some o'
    → (o.current * 10 + d ≤ 255)
      × (o.octets + 1 ≤ 4)
      × (record o { current = o.current * 10 + d; octets = o.octets + 1; saw_digit = true } ≡ o')
unfolding digit_step
digit_step-first o o' d saw run = ground arith

dot_step-some :
    (o o' : Octets)
    → dot_step o ≡ some o'
    → (o.octets ≢ 4)
      × (record o { before = o.before ++ o.current ∷ []; current = 0; saw_digit = false } ≡ o')
unfolding dot_step
dot_step-some o o' run = ground arith

-- What a step that takes the character `c` does.
abbrev Reads : ℕ → Octets → Octets → Type 0
Reads c o o' = IsOctets o' × (read o' ≡ read o ++ c ∷ [])

digit_step-Reads :
    (o o' : Octets) (c d : ℕ)
    → digit c ≡ some d
    → IsOctets o
    → digit_step o d ≡ some o'
    → Reads c o o'
digit_step-Reads o o' c d e v run = elim (Bool-cases o.saw_digit) [
  | inl saw ↦
      let (pos, small, is) = digit_step-more o o' d saw run in
      rw (← is) (
        record {
          counted = v.counted;
          fresh = λ off. cc;
          small = small;
          most = v.most;
          expects = λ off. cc;
          bytes = v.bytes;
        },
        rw (saw, decimal-digit o.current c d e pos small)
            (sym (append_assoc (dotted o.before) (decimal o.current) (c ∷ []))),
      )
  | inr first ↦
      let (small, room, is) = digit_step-first o o' d first run in
      let alone : o.current * 10 + d ≡ d = omega (arith, v.fresh first) in
      rw (← is) (
        record {
          counted = ground (arith, v.counted);
          fresh = λ off. cc;
          small = small;
          most = room;
          expects = λ off. cc;
          bytes = v.bytes;
        },
        rw (first, alone, decimal-first c d e, append-nil) refl,
      )
]

dot_step-Reads :
    (o o' : Octets) → o.saw_digit ≡ true → IsOctets o → dot_step o ≡ some o' → Reads b'.' o o'
dot_step-Reads o o' saw v run =
    let (room, is) = dot_step-some o o' run in
    rw (← is) (
      record {
        counted = ground (arith, v.counted, length-append o.before (o.current ∷ []));
        fresh = λ off. refl;
        small = omega arith;
        most = v.most;
        expects = λ off. omega (arith, v.most);
        bytes = All-append (λ n. n ≤ 255) o.before (o.current ∷ []) v.bytes (v.small, tt);
      },
      rw (saw, dotted-append o.before o.current, append-nil)
          (sym (append_assoc (dotted o.before) (decimal o.current) (b'.' ∷ []))),
    )

dotted_char :
    (o o' : Octets) (c : ℕ)
    → (if c == b'.' && o.saw_digit then dot_step o else none) ≡ some o'
    → (c ≡ b'.') × (o.saw_digit ≡ true) × (dot_step o ≡ some o')
dotted_char o o' c run = ground arith

char_step-Reads : (o o' : Octets) (c : ℕ) → IsOctets o → char_step o c ≡ some o' → Reads c o o'
unfolding char_step
char_step-Reads o o' c v run = cases (digit c) refl
  where
    dot : c ≡ b'.' → o.saw_digit ≡ true → dot_step o ≡ some o' → Reads c o o'
    dot is saw e = rw is (dot_step-Reads o o' saw v e)

    cases : (r : Option ℕ) → digit c ≡ r → Reads c o o'
    cases (some d) e = digit_step-Reads o o' c d e v (rw (e, char_step) at run)
    cases none e =
        let run' : (if c == b'.' && o.saw_digit then dot_step o else none) ≡ some o' =
          rw (e, char_step) at run in
        let (is, saw, step) = dotted_char o o' c run' in dot is saw step

-- The text of an address.
abbrev pub text : List ℕ → List ℕ
text [] = []
text (n ∷ []) = decimal n
text (n ∷ m ∷ r) = decimal n ++ b'.' ∷ text (m ∷ r)

text-append : (before : List ℕ) (n : ℕ) → text (before ++ n ∷ []) ≡ dotted before ++ decimal n
text-append [] n = refl
text-append (m ∷ []) n = sym (append_assoc (decimal m) (b'.' ∷ []) (decimal n))
text-append (m ∷ k ∷ before) n =
    ap (λ t. decimal m ++ b'.' ∷ t) (text-append (k ∷ before) n)
    ∙ sym (append_assoc (decimal m) (b'.' ∷ dotted (k ∷ before)) (decimal n))

-- An address of four bytes, with its text.
abbrev pub IsAddress : List ℕ → List ℕ → Type 0
IsAddress s r = (length r ≡ 4) × All (λ n. n ≤ 255) r × (s ≡ text r)

finished :
    (o : Octets) (r : List ℕ)
    → (if ltb o.octets 4 then none else some (o.before ++ o.current ∷ [])) ≡ some r
    → (4 ≤ o.octets) × (o.before ++ o.current ∷ [] ≡ r)
finished o r run = ground arith

octet_loop-IsAddress :
    (s : List ℕ) (o : Octets) (r : List ℕ)
    → IsOctets o
    → octet_loop o s ≡ some r
    → IsAddress (read o ++ s) r
unfolding octet_loop
octet_loop-IsAddress [] o r v run = elim (Bool-cases o.saw_digit) [
  | inl saw ↦
      let (enough, is) = finished o r run in
      rw (← is) (
        omega (arith, v.counted, length-append o.before (o.current ∷ []), ap one_if saw, v.most),
        All-append (λ n. n ≤ 255) o.before (o.current ∷ []) v.bytes (v.small, tt),
        rw (saw, append-nil) (sym (text-append o.before o.current)),
      )
  | inr open_dot ↦ let (enough, is) = finished o r run in absurd (omega (arith, v.expects open_dot))
]
octet_loop-IsAddress (c ∷ s) o r v run = cases (char_step o c) refl (octet_loop-IsAddress s)
  where
    cases :
        (n : Option Octets)
        → char_step o c ≡ n
        → ((o' : Octets) (r' : List ℕ)
            → IsOctets o'
            → octet_loop o' s ≡ some r'
            → IsAddress (read o' ++ s) r')
        → IsAddress (read o ++ c ∷ s) r
    cases none e ih =
        let bad : ◌≡◌ {A = Option (List ℕ)} none (some r) = rw (e, octet_loop) at run in cc
    cases (some o') e ih =
        let (v', grown) = char_step-Reads o o' c v e in
        let run' : octet_loop o' s ≡ some r = rw (e, octet_loop) at run in
        let (four, bytes, is) = ih o' r v' run' in
        (four, bytes, sym (append_assoc (read o) (c ∷ []) s) ∙ ap (λ t. t ++ s) (sym grown) ∙ is)

octet_loop-step :
    (o o' : Octets) (c : ℕ) (s : List ℕ)
    → char_step o c ≡ some o'
    → octet_loop o (c ∷ s) ≡ octet_loop o' s
unfolding octet_loop
octet_loop-step o o' c s e = rw (e, octet_loop) refl

digit-char : (d : ℕ) → d < 10 → digit (b'0' + d) ≡ some d
unfolding digit
digit-char d h = ground arith

abbrev reading : List ℕ → ℕ → Bool → ℕ → Octets
reading before n saw k = record { before = before; current = n; saw_digit = saw; octets = k }

module _ (before : List ℕ) (k d : ℕ) (s : List ℕ) (small : d < 10) where
  read_first :
      k ≤ 3
      → octet_loop (reading before 0 false k) ((b'0' + d) ∷ s)
        ≡ octet_loop (reading before d true (k + 1)) s
  unfolding char_step
  read_first room =
      octet_loop-step (reading before 0 false k) (reading before d true (k + 1)) (b'0' + d) s
        (rw (digit-char d small, char_step) (ground arith))

  read_more :
      (n : ℕ)
      → n ≢ 0
      → n * 10 + d ≤ 255
      → octet_loop (reading before n true k) ((b'0' + d) ∷ s)
        ≡ octet_loop (reading before (n * 10 + d) true k) s
  unfolding char_step
  read_more n pos byte =
      octet_loop-step (reading before n true k) (reading before (n * 10 + d) true k) (b'0' + d) s
        (rw (digit-char d small, char_step) (ground arith))

read_dot :
    (before : List ℕ) (n k : ℕ) (s : List ℕ)
    → k ≤ 3
    → octet_loop (reading before n true k) (b'.' ∷ s)
      ≡ octet_loop (reading (before ++ n ∷ []) 0 false k) s
unfolding char_step digit
read_dot before n k s room =
    octet_loop-step (reading before n true k) (reading (before ++ n ∷ []) 0 false k) b'.' s
      (ground arith)

-- The loop reads the text of an octet.
octet_loop-decimal :
    (n : ℕ) (s before : List ℕ) (k : ℕ)
    → n ≤ 255
    → k ≤ 3
    → octet_loop (reading before 0 false k) (decimal n ++ s)
      ≡ octet_loop (reading before n true (k + 1)) s
octet_loop-decimal n s before k byte room =
    rw (decimal-three_digits n (omega arith)) (elim (Bool-cases (ltb n 10)) [
      | inl one ↦ rw one (read_first before k n s (ground arith) room)
      | inr more ↦ elim (Bool-cases (ltb n 100)) [
        | inl two ↦
            let whole : n / 10 * 10 + n % 10 ≡ n = omega arith in
            rw (more, two)
              (read_first before k (n / 10) ((b'0' + n % 10) ∷ s) (ground arith) room
                ∙ rw whole at (
                    read_more before (k + 1) (n % 10) s (omega arith) (n / 10) (ground arith)
                      (omega arith)))
        | inr three ↦
            let tens : n / 100 * 10 + n / 10 % 10 ≡ n / 10 = omega arith in
            let whole : n / 10 * 10 + n % 10 ≡ n = omega arith in
            rw (more, three)
              (read_first before k (n / 100) ((b'0' + n / 10 % 10) ∷ (b'0' + n % 10) ∷ s)
                  (omega arith) room
                ∙ rw tens at (
                    read_more before (k + 1) (n / 10 % 10) ((b'0' + n % 10) ∷ s) (omega arith)
                      (n / 100) (ground arith) (omega arith))
                ∙ rw whole at (
                    read_more before (k + 1) (n % 10) s (omega arith) (n / 10) (ground arith)
                      (omega arith)))
      ]
    ])

-- The loop reads the text of a whole address.
octet_loop-text :
    (a b c d : ℕ)
    → a ≤ 255
    → b ≤ 255
    → c ≤ 255
    → d ≤ 255
    → octet_loop no_octets (text (a ∷ b ∷ c ∷ d ∷ [])) ≡ some (a ∷ b ∷ c ∷ d ∷ [])
unfolding octet_loop
octet_loop-text a b c d ha hb hc hd =
    octet_loop-decimal a (b'.' ∷ text (b ∷ c ∷ d ∷ [])) [] 0 ha (omega arith)
    ∙ read_dot [] a 1 (text (b ∷ c ∷ d ∷ [])) (omega arith)
    ∙ octet_loop-decimal b (b'.' ∷ text (c ∷ d ∷ [])) (a ∷ []) 1 hb (omega arith)
    ∙ read_dot (a ∷ []) b 2 (text (c ∷ d ∷ [])) (omega arith)
    ∙ octet_loop-decimal c (b'.' ∷ text (d ∷ [])) (a ∷ b ∷ []) 2 hc (omega arith)
    ∙ read_dot (a ∷ b ∷ []) c 3 (text (d ∷ [])) (omega arith)
    ∙ ap (octet_loop (reading (a ∷ b ∷ c ∷ []) 0 false 3)) (sym (append-nil (decimal d)))
    ∙ octet_loop-decimal d [] (a ∷ b ∷ c ∷ []) 3 hd (omega arith)
    ∙ last
  where
    last : octet_loop (reading (a ∷ b ∷ c ∷ []) d true 4) [] ≡ some (a ∷ b ∷ c ∷ d ∷ [])
    last = refl

-- `inet_pton4` accepts a string exactly if it is the text of four numbers up to 255, without
-- leading zeros and with a dot between each two, and then gives these numbers.
pub inet_pton4_iff : (s r : List ℕ) → (inet_pton4 s ≡ some r) ↔ IsAddress s r
unfolding inet_pton4
inet_pton4_iff s r = (
  λ run. octet_loop-IsAddress s no_octets r start run,
  λ (four, bytes, is). rw is (accepts r four bytes),
)
  where
    start : IsOctets no_octets
    start = omega arith

    accepts :
        (r : List ℕ) → length r ≡ 4 → All (λ n. n ≤ 255) r → octet_loop no_octets (text r) ≡ some r
    accepts (a ∷ b ∷ c ∷ d ∷ []) four all =
        octet_loop-text a b c d all.0 all.1.0 all.1.1.0 all.1.1.1.0
    accepts [] four all = absurd (omega arith)
    accepts (a ∷ []) four all = absurd (omega arith)
    accepts (a ∷ b ∷ []) four all = absurd (omega arith)
    accepts (a ∷ b ∷ c ∷ []) four all = absurd (omega arith)
    accepts (a ∷ b ∷ c ∷ d ∷ e ∷ r) four all = absurd (omega arith)
