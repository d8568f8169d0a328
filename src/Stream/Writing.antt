-- ===== src/Stream/Writing.antt =====
-- src/unix/stream.c: `uv__write` on a stream that does not block.
use libuv.Prelude.{
  ℕ, ◌+◌, ◌-◌, ◌≤◌, ◌≡◌, refl, sym, ap, ◌∙◌, Bool, true, false, ◌||◌, none, some, List, [], ◌∷◌,
  ◌++◌, length, take, append_assoc, append-nil, length-append, All, arith,
}
use mathlib.Core.Path.{subst}
use libuv.Errno.{Errno}
use libuv.Stream.Buffers.{length-take}
use libuv.Stream.Valid.{IsValid, IsReady, unsent, queued, ids, queued-append}
use libuv.Stream.{Req, Stream, bytes_of, from_index, bufs_after, released, write_req_finish}

abbrev pub is_empty {ℓ} : {A : Type ℓ} → List A → Bool
is_empty [] = true
is_empty (x ∷ xs) = false

abbrev pub is_failed : Req → Bool
is_failed r = elim (r.error) [ none ↦ false | some e ↦ true ]

-- What `uv__write` does: it completes the requests `new`, in the order of the queue. The bytes that
-- the kernel accepted, then those that the completed requests did not get out, then those that still
-- wait, are the bytes from before, in order. A completed request without an error was written as a
-- whole. If requests are left, the stream's watcher waits for `POLLOUT` or is pending.
pub record Wrote (s s' : Stream) (new : List Req) : Type 0 where
  pub valid : IsValid s'
  pub completed : s'.write_completed_queue ≡ s.write_completed_queue ++ new
  pub bytes : s'.wire ++ (queued new ++ queued s'.write_queue) ≡ s.wire ++ queued s.write_queue
  pub order : ids new ++ ids s'.write_queue ≡ ids s.write_queue
  pub whole : All (λ r. (is_failed r || is_empty (unsent r)) ≡ true) new
  pub awake : (is_empty s'.write_queue || (s'.wants_out || s'.fed)) ≡ true

pub or-true : (b : Bool) → (b || true) ≡ true
or-true true = refl
or-true false = refl

pub whole-queue :
    (s : Stream) (r : Req) (rest : List Req)
    → s.write_queue ≡ r ∷ rest
    → IsValid s
    → IsReady r × All IsReady rest
whole-queue s r rest q v = subst (λ t. All IsReady t) q v.ready

-- Nothing more is done.
pub still :
    (s : Stream)
    → IsValid s
    → (is_empty s.write_queue || (s.wants_out || s.fed)) ≡ true
    → Wrote s s []
still s v up = record {
  valid = v;
  completed = sym (append-nil s.write_completed_queue);
  bytes = refl;
  order = refl;
  whole = tt;
  awake = up;
}

-- One request was completed, with the bytes `w` on the wire, and then the others.
pub completed-Wrote :
    (s s1 s' : Stream) (r r1 : Req) (rest new : List Req) (w : List ℕ)
    → s.write_queue ≡ r ∷ rest
    → s1.write_queue ≡ rest
    → s1.write_completed_queue ≡ s.write_completed_queue ++ r1 ∷ []
    → s1.wire ≡ s.wire ++ w
    → w ++ unsent r1 ≡ unsent r
    → unsent r1 ≡ []
    → r1.id ≡ r.id
    → Wrote s1 s' new
    → Wrote s s' (r1 ∷ new)
completed-Wrote s s1 s' r r1 rest new w q q1 c1 w1 bytes empty same_id wrote = record {
  valid = wrote.valid;
  completed =
      wrote.completed ∙ ap (λ t. t ++ new) c1 ∙ append_assoc s.write_completed_queue (r1 ∷ []) new;
  bytes =
      ap (λ t. s'.wire ++ ((t ++ queued new) ++ queued s'.write_queue)) empty
      ∙ wrote.bytes
      ∙ ap (λ t. t ++ queued s1.write_queue) w1
      ∙ append_assoc s.wire w (queued s1.write_queue)
      ∙ ap (λ t. s.wire ++ (w ++ queued t)) q1
      ∙ ap (λ t. s.wire ++ (t ++ queued rest))
          (sym (append-nil w) ∙ ap (λ t. w ++ t) (sym empty) ∙ bytes)
      ∙ ap (λ t. s.wire ++ queued t) (sym q);
  order =
      ap (λ i. i ∷ (ids new ++ ids s'.write_queue)) same_id
      ∙ ap (λ t. r.id ∷ t) (wrote.order ∙ ap ids q1)
      ∙ ap ids (sym q);
  whole = (ap (λ t. is_failed r1 || is_empty t) empty ∙ or-true (is_failed r1), wrote.whole);
  awake = wrote.awake;
}

-- The request failed, and stays with the bytes that it has.
pub refused-Wrote :
    (s : Stream) (r : Req) (rest : List Req) (e : Errno)
    → s.write_queue ≡ r ∷ rest
    → IsValid s
    → Wrote s
        (record (write_req_finish (record s { write_queue = rest }) (record r { error = some e })) {
          wants_out = false;
        })
        (record r { error = some e } ∷ [])
unfolding write_req_finish
refused-Wrote s r rest e q v = record {
  valid = record {
    ready = (whole-queue s r rest q v).1;
    sized = omega (
      arith,
      v.sized,
      ap (λ t. length (queued t)) q,
      length-append (unsent r) (queued rest),
      ap length (queued-append s.write_completed_queue (record r { error = some e })),
      length-append (queued s.write_completed_queue) (unsent r),
    );
  };
  completed = refl;
  bytes =
      ap (λ t. s.wire ++ (t ++ queued rest)) (append-nil (unsent r))
      ∙ ap (λ t. s.wire ++ queued t) (sym q);
  order = ap ids (sym q);
  whole = (refl, tt);
  awake = or-true (is_empty rest);
}

pub released-unsent : (r : Req) → r.error ≡ none → unsent (released r) ≡ []
released-unsent r fresh = ap (λ o. bytes_of (from_index r.write_index (bufs_after o r.bufs))) fresh

pub released-id : (r : Req) → (released r).id ≡ r.id
released-id r = refl

-- The state after a complete request.
unfoldable pub finished : Stream → Req → List Req → ℕ → Req → Stream
unfolding write_req_finish
finished s r rest n r' =
    write_req_finish
      (record s {
        write_queue_size = s.write_queue_size - n;
        wire = s.wire ++ take n (unsent r);
        write_queue = rest;
      })
      r'

-- The state with `n` bytes on the wire, `r'` at the head of the queue.
module _ (s : Stream) (r : Req) (rest : List Req) (n : ℕ) (r' : Req) (q : s.write_queue ≡ r ∷ rest)
    (v : IsValid s) (bytes : take n (unsent r) ++ unsent r' ≡ unsent r)
    (le : n ≤ length (unsent r)) where
  -- The sizes of what was written and of what is left.
  sizes :
      (length (take n (unsent r)) + length (unsent r') ≡ length (unsent r))
      × (length (take n (unsent r)) ≡ n)
  sizes = (
    sym (length-append (take n (unsent r)) (unsent r')) ∙ ap length bytes,
    length-take n (unsent r) le,
  )

  total :
      s.write_queue_size
      ≡ length (unsent r) + length (queued rest) + length (queued s.write_completed_queue)
  total =
      omega (arith, v.sized, ap (λ t. length (queued t)) q, length-append (unsent r) (queued rest))

  pub part-Wrote :
      IsReady r'
      → r'.id ≡ r.id
      → Wrote s
          (record s {
            write_queue_size = s.write_queue_size - n;
            wire = s.wire ++ take n (unsent r);
            write_queue = r' ∷ rest;
            wants_out = true;
          })
          []
  part-Wrote ready same_id = record {
    valid = record {
      ready = (ready, (whole-queue s r rest q v).1);
      sized = omega (arith, sizes, total, length-append (unsent r') (queued rest));
    };
    completed = sym (append-nil s.write_completed_queue);
    bytes =
        append_assoc s.wire (take n (unsent r)) (unsent r' ++ queued rest)
        ∙ ap (λ t. s.wire ++ t)
            (sym (append_assoc (take n (unsent r)) (unsent r') (queued rest))
              ∙ ap (λ t. t ++ queued rest) bytes
              ∙ ap queued (sym q));
    order = ap (λ i. i ∷ ids rest) same_id ∙ ap ids (sym q);
    whole = tt;
    awake = refl;
  }

  pub finished-IsValid : r'.error ≡ none → unsent r' ≡ [] → IsValid (finished s r rest n r')
  unfolding finished
  finished-IsValid fresh empty = record {
    ready = (whole-queue s r rest q v).1;
    sized = omega (
      arith,
      sizes,
      total,
      ap length empty,
      ap length (queued-append s.write_completed_queue (released r')),
      length-append (queued s.write_completed_queue) (unsent (released r')),
      ap length (released-unsent r' fresh),
    );
  }
