-- ===== src/Backend/File/Copy.antt =====
-- A body that went through FileBackend of backends/file.go, and io.Copy from its reader.
use cdp_cache.Base.{
  ℕ, zero, suc, ◌+◌, ◌<◌, ◌≡◌, refl, sym, ap, ◌∙◌, true, false, Option, none, some, List, [], ◌∷◌,
  ◌++◌, subst, length-append, length, take, drop, append_assoc, append-nil, arith,
}
use cdp_cache.Base.Text.{Str, concat}
use cdp_cache.Backend.File.{
  FileBackend, FileReader, ReadEnd, got, end_of_file, waits, read_content, read_end, read,
  new_file_backend, write, close, get_reader,
}
use cdp_cache.Backend.Subscription.{
  new_subscription, notify_each, close_each, new_subscriber, notify_all, close_subscription,
}

abbrev followed : Str → Option Str → Option Str
followed s none = none
followed s (some t) = some (s ++ t)

abbrev pub after_read :
    (FileBackend → FileReader → Option Str) → FileBackend × (FileReader × ReadEnd) → Option Str
after_read next (g, (q, got s)) = followed s (next g q)
after_read next (g, (q, end_of_file)) = some []
after_read next (g, (q, waits)) = none

-- io.Copy with a buffer of n bytes, on fuel: what it copies until the end of the file; `none` if it
-- waits for ever or the fuel runs out.
unfoldable pub copy : ℕ → ℕ → FileBackend → FileReader → Option Str
copy zero n f r = none
copy (suc fuel) n f r = after_read (copy fuel n) (read n f r)

pub take-drop : (n : ℕ) (s : Str) → take n s ++ drop (length (take n s)) s ≡ s
take-drop zero s = refl
take-drop (suc n) [] = refl
take-drop (suc n) (c ∷ s) = ap (λ t. c ∷ t) (take-drop n s)

pub drop-nil : (k : ℕ) → drop {A = ℕ} k [] ≡ []
drop-nil zero = refl
drop-nil (suc k) = refl

pub take-nil : (n : ℕ) (s : Str) → 0 < n → take n s ≡ [] → s ≡ []
take-nil zero s p e = ground arith
take-nil (suc n) [] p e = refl
take-nil (suc n) (c ∷ s) p e = ground arith

pub drop-drop : (m k : ℕ) (s : Str) → drop (m + k) s ≡ drop k (drop m s)
drop-drop zero k s = ap (λ m. drop m s) (omega arith)
drop-drop (suc m) k [] = drop-nil (suc m + k) ∙ sym (drop-nil k)
drop-drop (suc m) k (c ∷ s) = rw (suc_plus m k) (drop-drop m k s)
  where
    suc_plus : (m k : ℕ) → suc m + k ≡ suc (m + k)
    suc_plus m k = omega arith

-- A reader of a closed subscription.
pub record IsOver (f : FileBackend) (r : FileReader) : Type 0 where
  pub no_token : (f.subscription.channels r.channel).tokens ≡ 0
  pub over : (f.subscription.channels r.channel).is_closed ≡ true

read_end-nil : (n : ℕ) → 0 < n → read_end n [] ≡ end_of_file
read_end-nil zero p = ground arith
read_end-nil (suc n) p = refl

module _ (n : ℕ) (f : FileBackend) where
  read_over : (r : FileReader) → IsOver f r → read n f r ≡ (f, read_content n f.bytes r)
  unfolding read
  read_over r h = rw (h.no_token, h.over) refl

  moved_by : FileReader → Str → FileReader
  moved_by r part = record r { offset = r.offset + length part }

  rest_at : FileReader → Str
  rest_at r = drop r.offset f.bytes

  -- The part that a read takes, and the rest behind it.
  part-rest :
      (r : FileReader) (part : Str)
      → take n (rest_at r) ≡ part
      → part ++ rest_at (moved_by r part) ≡ rest_at r
  unfolding rest_at moved_by
  part-rest r part e =
      ap (λ t. part ++ t) (drop-drop r.offset (length part) f.bytes)
      ∙ subst (λ t. t ++ drop (length t) (drop r.offset f.bytes) ≡ drop r.offset f.bytes) e
          (take-drop n (drop r.offset f.bytes))

  copy_part :
      (next : FileBackend → FileReader → Option Str) (r : FileReader)
      → 0 < n
      → (part : Str) → take n (rest_at r) ≡ part
      → (0 < length part → next f (moved_by r part) ≡ some (rest_at (moved_by r part)))
      → after_read next (f, (moved_by r part, read_end n part)) ≡ some (rest_at r)
  unfolding rest_at
  copy_part next r p [] e ih =
      ap (λ b. after_read next (f, (moved_by r [], b))) (read_end-nil n p)
      ∙ ap some (sym (take-nil n (rest_at r) p e))
  copy_part next r p (c ∷ s) e ih =
      ap (followed (c ∷ s)) (ih (omega arith)) ∙ ap some (part-rest r (c ∷ s) e)

  shorter :
      (fuel : ℕ) (r : FileReader) (part : Str)
      → take n (rest_at r) ≡ part
      → 0 < length part
      → length (rest_at r) < suc fuel
      → length (rest_at (moved_by r part)) < fuel
  shorter fuel r part e l enough =
      omega (arith, length-append part (rest_at (moved_by r part)), ap length (part-rest r part e))

  -- Each read of a non-empty buffer takes what is left nearer to its end.
  copy_over :
      (fuel : ℕ) (r : FileReader)
      → 0 < n
      → IsOver f r
      → length (rest_at r) < fuel
      → copy fuel n f r ≡ some (rest_at r)
  unfolding copy read_content rest_at moved_by
  copy_over zero r p h enough = absurd (omega arith)
  copy_over (suc fuel) r p h enough =
      let part = take n (rest_at r) in
      ap (after_read (copy fuel n)) (read_over r h)
      ∙ copy_part (copy fuel n) r p part refl (λ l.
        copy_over fuel (moved_by r part) p (record { no_token = h.no_token; over = h.over })
          (shorter fuel r part refl l enough))

-- A body written in pieces.
unfoldable pub write_all : FileBackend → List Str → Option FileBackend
unfolding write
write_all f [] = some f
write_all f (p ∷ ps) =
    let rest = λ (g : FileBackend). write_all g ps in
    elim (write f p) [ none ↦ none | some (g, _) ↦ rest g ]

-- The file of a fresh backend after a body in pieces, with its two ends closed.
abbrev pub written : Str → FileBackend
written body = record { bytes = body; file_closed = false; subscription = new_subscription }

write_all-written :
    (body : Str) (ps : List Str) → write_all (written body) ps ≡ some (written (body ++ concat ps))
unfolding write_all write notify_all notify_each new_subscription concat
write_all-written body [] = ap (λ b. some (written b)) (sym (append-nil body))
write_all-written body (p ∷ ps) =
    write_all-written (body ++ p) ps ∙ ap (λ b. some (written b)) (append_assoc body p (concat ps))

-- The body of a response in pieces into a new file, its Close, and the copy of a later hit.
abbrev read_after_close : ℕ → ℕ → Option FileBackend → Option Str
read_after_close fuel n none = none
read_after_close fuel n (some f) = let (g, r) = get_reader (close f) in copy fuel n g r

unfoldable pub stored_and_copied : ℕ → ℕ → List Str → Option Str
stored_and_copied fuel n ps = read_after_close fuel n (write_all new_file_backend ps)

-- A body that is written in pieces into a new file, which is then closed, is copied whole from a
-- reader that is opened afterwards, whatever the size of the copy's buffer is, if it is not 0: as
-- many reads as the body has bytes, and one more, are enough.
pub file_round_trip :
    (fuel n : ℕ) (ps : List Str)
    → 0 < n
    → length (concat ps) < fuel
    → stored_and_copied fuel n ps ≡ some (concat ps)
unfolding stored_and_copied new_file_backend close get_reader new_subscription new_subscriber
    close_subscription close_each rest_at
file_round_trip fuel n ps p enough =
    ap (read_after_close fuel n) (write_all-written [] ps)
    ∙ copy_over n _ fuel _ p (record { no_token = refl; over = refl }) enough
