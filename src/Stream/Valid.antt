-- ===== src/Stream/Valid.antt =====
-- src/unix/stream.c: the requests in the queue, and what `write_queue_size` counts.
use libuv.Prelude.{
  ℕ, zero, suc, ◌+◌, ◌-◌, ◌≤◌, ◌<◌, ◌≡◌, ◌⊎◌, refl, sym, ap, ◌∙◌, inl, inr, Bool, true, false, none,
  some, List, [], ◌∷◌, ◌++◌, ltb, ◌==◌, length, take, drop, append_assoc, append-nil, All,
  Bool-cases, arith,
}
use libuv.Stream.{Req, Stream, bytes_of, from_index, remaining, update_bufs, write_req_update}
use libuv.Stream.Buffers.{Walked, walk-Walked, drop-all, length-drop}

-- What a request has still to write, and what the requests of a queue have.
abbrev pub unsent : Req → List ℕ
unsent r = bytes_of (remaining r)

abbrev pub queued : List Req → List ℕ
queued [] = []
queued (r ∷ rs) = unsent r ++ queued rs

abbrev pub ids : List Req → List ℕ
ids [] = []
ids (r ∷ rs) = r.id ∷ ids rs

-- A request that waits in `write_queue`: it has a buffer at `write_index`, and no error.
pub record IsReady (r : Req) : Type 0 where
  pub held : List (List ℕ)
  pub has : r.bufs ≡ some held
  pub counted : length held ≡ r.nbufs
  pub left : r.write_index < r.nbufs
  pub fresh : r.error ≡ none

-- `write_queue_size` counts the bytes of both queues.
pub record IsValid (s : Stream) : Type 0 where
  pub ready : All IsReady s.write_queue
  pub sized :
      s.write_queue_size ≡ length (queued s.write_queue) + length (queued s.write_completed_queue)

pub queued-append : (rs : List Req) (r : Req) → queued (rs ++ r ∷ []) ≡ queued rs ++ unsent r
queued-append [] r = append-nil (unsent r)
queued-append (q ∷ rs) r =
    ap (λ t. unsent q ++ t) (queued-append rs r)
    ∙ sym (append_assoc (unsent q) (queued rs) (unsent r))

drop-over :
    {A : Type 0} (i advance : ℕ) (xs ys : List A)
    → i ≤ length xs
    → drop (i + advance) (take i xs ++ ys) ≡ drop advance ys
drop-over zero advance xs ys le = ap (λ k. drop k ys) {x = 0 + advance} {y = advance} (omega arith)
drop-over (suc i) advance [] ys le = absurd (omega arith)
drop-over (suc i) advance (x ∷ xs) ys le =
    ap (λ k. drop k (x ∷ (take i xs ++ ys))) {x = suc i + advance} {y = suc (i + advance)}
      (omega arith)
    ∙ drop-over i advance xs ys (omega arith)

length-over :
    {A : Type 0} (i : ℕ) (xs ys : List A) → i ≤ length xs → length (take i xs ++ ys) ≡ i + length ys
length-over zero xs ys le = omega arith
length-over (suc i) [] ys le = absurd (omega arith)
length-over (suc i) (x ∷ xs) ys le = omega (arith, length-over i xs ys (omega arith))

-- The request after `n` of its bytes were written.
pub record Updated (s : Stream) (r : Req) (n : ℕ) (complete : Bool) (r' : Req) : Type 0 where
  pub done :
      write_req_update s r n
      ≡ some (complete, record s { write_queue_size = s.write_queue_size - n }, r')
  pub bytes : take n (unsent r) ++ unsent r' ≡ unsent r
  pub same_id : r'.id ≡ r.id
  pub fresh : r'.error ≡ none
  pub rest : ((complete ≡ true) × (unsent r' ≡ [])) ⊎ ((complete ≡ false) × IsReady r')

module _ (s : Stream) (r : Req) (n : ℕ) (ready : IsReady r) where
  update :
      (advance : ℕ) (bs' : List (List ℕ))
      → n ≤ s.write_queue_size
      → Walked n (drop r.write_index ready.held) advance bs'
      → Updated s r n (r.write_index + advance == r.nbufs) (record r {
        bufs = some (take r.write_index ready.held ++ bs');
        write_index = r.write_index + advance;
      })
  unfolding write_req_update
  update advance bs' le w =
      let small : ltb s.write_queue_size n ≡ false = ground arith in
      let count = ready.counted in
      let inside : r.write_index ≤ length ready.held = omega (arith, count, ready.left) in
      let over = drop-over r.write_index advance ready.held bs' inside in
      let len = length-drop r.write_index ready.held in
      let held_unsent = ap (λ o. bytes_of (from_index r.write_index o)) ready.has in
      let whole = length-over r.write_index ready.held bs' inside in
      record {
        done = ap (update_bufs s r n) ready.has ∙ rw (small, w.done) refl;
        bytes =
            ap
              (λ o.
                take n (bytes_of (from_index r.write_index o))
                ++ bytes_of (drop (r.write_index + advance) (take r.write_index ready.held ++ bs')))
              ready.has
            ∙ ap (λ t. take n (bytes_of (drop r.write_index ready.held)) ++ bytes_of t) over
            ∙ w.bytes
            ∙ sym held_unsent;
        same_id = refl;
        fresh = ready.fresh;
        rest = elim (Bool-cases (r.write_index + advance == r.nbufs)) [
          | inl complete ↦ inl (
            complete,
            (ap bytes_of over
                ∙ ap bytes_of
                    (drop-all advance bs' (ground (arith, complete, w.same_length, len, count)))),
          )
          | inr part ↦ inr (
            part,
            record {
              held = take r.write_index ready.held ++ bs';
              has = refl;
              counted = omega (arith, whole, w.same_length, len, count, ready.left);
              left = ground (arith, w.in_range, len, count, ready.left);
              fresh = ready.fresh;
            },
          )
        ];
      }

  -- On a request that waits, `uv__write_req_update` is not a fault for as many bytes as it still has
  -- to write. The bytes that were written, and then the ones that the request still has, are those
  -- that it had. It either is complete, with nothing left to write, or waits as before.
  pub write_req_update-Updated :
      n ≤ length (unsent r)
      → n ≤ s.write_queue_size
      → (complete : Bool) × (r' : Req) × Updated s r n complete r'
  write_req_update-Updated le fits =
      let count = ready.counted in
      let held_unsent = ap (λ o. bytes_of (from_index r.write_index o)) ready.has in
      let some_bufs : 0 < length (drop r.write_index ready.held) =
        omega (arith, length-drop r.write_index ready.held, count, ready.left) in
      let (advance, bs', w) =
        walk-Walked n (drop r.write_index ready.held) some_bufs
          (omega (arith, ap length held_unsent)) in
      (r.write_index + advance == r.nbufs, _, update advance bs' fits w)
