-- ===== src/Backend/File/Stream/Invariant.antt =====
-- What a reader of backends/file.go has returned, while the body is still written.
use mathlib.Core.Option
use cdp_cache.Base.{
  ℕ, zero, suc, ◌+◌, ◌≡◌, refl, sym, ap, ◌∙◌, Bool, true, false, Option, none, some, List, [], ◌∷◌,
  ◌++◌, ◌==◌, length-append, subst, length, take, drop, append_assoc, append-nil, arith, inl, inr,
  Bool-cases,
}
use cdp_cache.Base.Text.{Str, has_prefix}
use cdp_cache.Base.Split.{has_prefix-append}
use cdp_cache.Backend.File.Copy.{take-drop, take-nil, drop-nil}
use cdp_cache.Backend.File.{
  FileBackend, FileReader, ReadEnd, got, end_of_file, waits, read_content, read_end, read_after,
  take_token, read, write, flush, close, get_reader, after_token,
}
use cdp_cache.Backend.Subscription.{Channel, set_channel, new_subscriber}
use cdp_cache.Backend.File.Stream.{
  Event, writes, flushes, closes, reads, Stream, step, run, start, is_closed, after_call,
  after_write, add_read,
}
use cdp_cache.Backend.File.Stream.Later.{
  Later, write-Later, flush-Later, close-Later, take_token-Later,
}

-- What a stream keeps to: it has the file's first bytes, and has ended only after the last byte of a
-- closed file.
pub record Inv (s : Stream) : Type 0 where
  pub rest : Str
  pub prefix : s.backend.bytes ≡ s.output ++ rest
  pub where_it_is : s.reader.offset ≡ length s.output
  pub sealed : is_closed s.backend s.reader ≡ true → s.backend.file_closed ≡ true
  pub at_end : s.ended ≡ true → (rest ≡ []) × (s.backend.file_closed ≡ true)

drop-length : (s t : Str) → drop (length s) (s ++ t) ≡ t
drop-length [] t = refl
drop-length (c ∷ s) t = drop-length s t

Later-Inv :
    (s : Stream) (g : FileBackend)
    → Inv s
    → Later s.backend g s.reader
    → Inv (record s { backend = g })
Later-Inv s g i l = record {
  rest = i.rest ++ l.added;
  prefix = l.grown ∙ ap (λ b. b ++ l.added) i.prefix ∙ append_assoc s.output i.rest l.added;
  where_it_is = i.where_it_is;
  sealed = λ c. elim (l.seals c) [ inl z ↦ z | inr z ↦ (l.stays (i.sealed z)).1 ];
  at_end =
      λ e. let (z, c) = i.at_end e in (ap (λ t. t ++ l.added) z ∙ (l.stays c).0, (l.stays c).1);
}

module _ (s : Stream) (i : Inv s) where
  rest-lem : drop s.reader.offset s.backend.bytes ≡ i.rest
  rest-lem = rw (i.where_it_is, i.prefix) (drop-length s.output i.rest)

  moved_by : Str → FileReader
  moved_by part = record s.reader { offset = s.reader.offset + length part }

  part-rest :
      (n : ℕ) (part : Str)
      → take n (drop s.reader.offset s.backend.bytes) ≡ part
      → part ++ drop (length part) i.rest ≡ i.rest
  part-rest n part e =
      subst (λ p. p ++ drop (length p) i.rest ≡ i.rest) (rw rest-lem at e) (take-drop n i.rest)

  took-Inv :
      (n : ℕ) (part : Str)
      → take n (drop s.reader.offset s.backend.bytes) ≡ part
      → Inv (record s { reader = moved_by part; output = s.output ++ part })
  unfolding moved_by
  took-Inv n part e = record {
    rest = drop (length part) i.rest;
    prefix =
        i.prefix
        ∙ ap (λ t. s.output ++ t) (sym (part-rest n part e))
        ∙ sym (append_assoc s.output part _);
    where_it_is = omega (arith, i.where_it_is, length-append s.output part);
    sealed = i.sealed;
    at_end =
        λ z. let (d, c) = i.at_end z in (ap (drop (length part)) d ∙ drop-nil (length part), c);
  }

  content-Inv :
      (n : ℕ) (part : Str)
      → take n (drop s.reader.offset s.backend.bytes) ≡ part
      → is_closed s.backend s.reader ≡ true
      → Inv (add_read s (s.backend, (moved_by part, read_end n part)))
  unfolding moved_by
  content-Inv zero [] e c = took-Inv zero [] e
  content-Inv (suc n) [] e c = record {
    rest = i.rest;
    prefix = i.prefix;
    where_it_is = omega (arith, i.where_it_is);
    sealed = i.sealed;
    at_end = λ _. (take-nil (suc n) i.rest (omega arith) (rw rest-lem at e), i.sealed c);
  }
  content-Inv n (b ∷ part) e c = took-Inv n (b ∷ part) e

  waiting-Inv : (n : ℕ) → Inv (add_read s (read_after n s.backend s.reader))
  unfolding read_after read_content moved_by
  waiting-Inv n = elim (Bool-cases (is_closed s.backend s.reader)) [
    | inl c ↦ rw c (content-Inv n (take n (drop s.reader.offset s.backend.bytes)) refl c)
    | inr c ↦ rw c i
  ]

add_read-reader :
    (s : Stream) (r : FileReader) (x : FileBackend × (FileReader × ReadEnd))
    → add_read (record s { reader = r }) x ≡ add_read s x
add_read-reader s r (f, (q, got p)) = refl
add_read-reader s r (f, (q, end_of_file)) = refl
add_read-reader s r (f, (q, waits)) = refl

add_read-backend :
    (s : Stream) (f : FileBackend) (x : FileBackend × (FileReader × ReadEnd))
    → add_read (record s { backend = f }) x ≡ add_read s x
add_read-backend s f (g, (q, got p)) = refl
add_read-backend s f (g, (q, end_of_file)) = refl
add_read-backend s f (g, (q, waits)) = refl

-- A read of the file after a token.
token-Inv :
    (s : Stream) (i : Inv s) (n : ℕ) (part : Str)
    → take n (drop s.reader.offset s.backend.bytes) ≡ part
    → Inv (add_read s (after_token n s.backend s.reader (moved_by s i part, read_end n part)))
unfolding moved_by
token-Inv s i zero [] e = took-Inv s i zero [] e
token-Inv s i (suc n) [] e =
    subst Inv (add_read-reader s (moved_by s i []) (read_after (suc n) s.backend (moved_by s i [])))
      (waiting-Inv (record s { reader = moved_by s i [] })
        (record {
          rest = i.rest;
          prefix = i.prefix;
          where_it_is = omega (arith, i.where_it_is);
          sealed = i.sealed;
          at_end = i.at_end;
        })
        (suc n))
token-Inv s i n (b ∷ part) e = took-Inv s i n (b ∷ part) e

read-Inv : (s : Stream) → Inv s → (n : ℕ) → Inv (add_read s (read n s.backend s.reader))
unfolding read read_content moved_by
read-Inv s i n =
    elim (Bool-cases ((s.backend.subscription.channels s.reader.channel).tokens == 0)) [
      | inl c ↦ rw c (waiting-Inv s i n)
      | inr c ↦
          let g = take_token s.backend s.reader.channel in
          let j = Later-Inv s g i (take_token-Later s.backend s.reader) in
          let part = take n (drop s.reader.offset s.backend.bytes) in
          rw c (
            subst Inv
              (add_read-backend s g (after_token n g s.reader (read_content n g.bytes s.reader)))
              (token-Inv (record s { backend = g }) j n part refl))
    ]

step-Inv : (e : Event) (s t : Stream) → Inv s → step e s ≡ some t → Inv t
unfolding step
step-Inv (writes p) s t i h = go (write s.backend p) refl h
  where
    go :
        (o : Option (FileBackend × (ℕ × Option Str)))
        → write s.backend p ≡ o
        → after_write s o ≡ some t
        → Inv t
    go none d h = absurd (Option.some-ne-none _ (sym h))
    go (some (g, n)) d h =
        subst Inv (Option.some_inj.0 h) (Later-Inv s g i (write-Later s.backend g s.reader p n d))
step-Inv flushes s t i h = go (flush s.backend) refl h
  where
    go : (o : Option FileBackend) → flush s.backend ≡ o → after_call s o ≡ some t → Inv t
    go none d h = absurd (Option.some-ne-none _ (sym h))
    go (some g) d h =
        subst Inv (Option.some_inj.0 h) (Later-Inv s g i (flush-Later s.backend g s.reader d))
step-Inv closes s t i h =
    subst Inv (Option.some_inj.0 h)
      (Later-Inv s (close s.backend) i (close-Later s.backend s.reader))
step-Inv (reads n) s t i h = subst Inv (Option.some_inj.0 h) (read-Inv s i n)

pub run-Inv : (es : List Event) (s t : Stream) → Inv s → run es s ≡ some t → Inv t
unfolding run Option.bind
run-Inv [] s t i h = subst Inv (Option.some_inj.0 h) i
run-Inv (e ∷ es) s t i h = next (step e s) refl h (λ u k. run-Inv es u t k)
  where
    next :
        (o : Option Stream)
        → step e s ≡ o
        → Option.bind o (run es) ≡ some t
        → ((u : Stream) → Inv u → run es u ≡ some t → Inv t)
        → Inv t
    next none d h ih = absurd (Option.some-ne-none _ (sym h))
    next (some u) d h ih = ih u (step-Inv e s u i d) h

made :
    (f : ℕ → Channel) (k : ℕ)
    → set_channel f k (record { tokens = 0; is_closed = false }) k
      ≡ record { tokens = 0; is_closed = false }
made f k = rw (same_self k) refl
  where
    same_self : (k : ℕ) → (k == k) ≡ true
    same_self k = ground arith

is_closed_flag : Channel → Bool
is_closed_flag c = c.is_closed

pub start-Inv :
    (f : FileBackend) → (f.subscription.closed ≡ true → f.file_closed ≡ true) → Inv (start f)
unfolding start get_reader new_subscriber is_closed_flag
start-Inv f c = elim (Bool-cases f.subscription.closed) [
  | inl h ↦ rw h (record {
    rest = f.bytes;
    prefix = refl;
    where_it_is = refl;
    sealed = λ _. c h;
    at_end = λ e. ground arith;
  })
  | inr h ↦ rw h (record {
    rest = f.bytes;
    prefix = refl;
    where_it_is = refl;
    sealed = λ e.
        ground
          (arith, ap is_closed_flag (made f.subscription.channels f.subscription.next_channel), e);
    at_end = λ e. ground arith;
  })
]

-- A reader is opened on a file, whose subscription is closed only when the file is, and then there
-- are writes, flushes, Close and reads in any order, without a panic. What the reader has returned is
-- the beginning of the file, and if it has said io.EOF it is the whole file, which is closed: a hit
-- that streams a body still in flight neither skips a byte nor ends early.
pub reader_streams_file :
    (f : FileBackend) (es : List Event) (t : Stream)
    → (f.subscription.closed ≡ true → f.file_closed ≡ true)
    → run es (start f) ≡ some t
    → has_prefix t.backend.bytes t.output ≡ true
      × (t.ended ≡ true → (t.output ≡ t.backend.bytes) × (t.backend.file_closed ≡ true))
reader_streams_file f es t c h =
    let i = run-Inv es (start f) t (start-Inv f c) h in
    (
      rw i.prefix (has_prefix-append t.output i.rest),
      λ e. (
        sym (i.prefix ∙ ap (λ r. t.output ++ r) (i.at_end e).0 ∙ append-nil t.output),
        (i.at_end e).1,
      ),
    )
