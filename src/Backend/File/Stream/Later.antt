-- ===== src/Backend/File/Stream/Later.antt =====
-- What the calls of backends/file.go do to a file that a reader reads.
use mathlib.Core.Option
use cdp_cache.Base.{
  ℕ, ◌≡◌, refl, sym, ap, ◌∙◌, Bool, true, false, Option, none, some, List, [], ◌∷◌, ◌++◌, ◌==◌,
  subst, append-nil, arith, ◌⊎◌, inl, inr, Bool-cases, if◌then◌else◌,
}
use cdp_cache.Base.Text.{Str}
use cdp_cache.Backend.File.{
  FileBackend, FileReader, take_token, write, flush, close, with_subscription, write_file,
  write_result,
}
use cdp_cache.Backend.Subscription.{Channel, notify_all, notify_each, set_channel, map_channels}
use cdp_cache.Backend.File.Stream.{is_closed}

-- What a call of the backend may do to a file that a reader reads.
pub record Later (f g : FileBackend) (r : FileReader) : Type 0 where
  pub added : Str
  pub grown : g.bytes ≡ f.bytes ++ added
  pub stays : f.file_closed ≡ true → (added ≡ []) × (g.file_closed ≡ true)
  pub seals : is_closed g r ≡ true → (g.file_closed ≡ true) ⊎ (is_closed f r ≡ true)

past :
    {A : Type 0} (b : Bool) (o : Option A) (g : A) → (if b then none else o) ≡ some g → o ≡ some g
past true o g e = absurd (Option.some-ne-none g (sym e))
past false o g e = e

same_code : (x c : ℕ) → (x == c) ≡ true → x ≡ c
same_code x c h = ground arith

same_flag :
    (f : ℕ → Channel) (n x c : ℕ)
    → (set_channel f x (record (f x) { tokens = n }) c).is_closed ≡ (f c).is_closed
same_flag f n x c = elim (Bool-cases (x == c)) [
  | inl h ↦ rw h (ap (λ i. (f i).is_closed) (same_code x c h))
  | inr h ↦ rw h refl
]

notify_each_keeps :
    (cs : List ℕ) (f g : ℕ → Channel) (c : ℕ)
    → notify_each cs f ≡ some g
    → (g c).is_closed ≡ (f c).is_closed
unfolding notify_each
notify_each_keeps [] f g c e = ap (λ h. (h c).is_closed) (sym (Option.some_inj.0 e))
notify_each_keeps (x ∷ xs) f g c e =
    notify_each_keeps xs (set_channel f x (record (f x) { tokens = 1 })) g c
      (past (f x).is_closed _ g e)
    ∙ same_flag f 1 x c

notified-Later :
    (f g h : FileBackend) (r : FileReader) (added : Str)
    → g.bytes ≡ f.bytes ++ added
    → (f.file_closed ≡ true → added ≡ [])
    → g.file_closed ≡ f.file_closed
    → with_subscription g (notify_all f.subscription) ≡ some h
    → Later f h r
unfolding notify_all
notified-Later f g h r added b n c e =
    go (notify_each f.subscription.subscribers f.subscription.channels) refl e
  where
    go :
        (o : Option (ℕ → Channel))
        → notify_each f.subscription.subscribers f.subscription.channels ≡ o
        → with_subscription g (map_channels f.subscription o) ≡ some h
        → Later f h r
    go none d e = absurd (Option.some-ne-none _ (sym e))
    go (some k) d e =
        subst (λ h. Later f h r) (Option.some_inj.0 e)
          (record {
            added = added;
            grown = b;
            stays = λ z. (n z, c ∙ z);
            seals = λ z. inr (
                sym (
                  notify_each_keeps f.subscription.subscribers f.subscription.channels k r.channel
                    d)
                ∙ z);
          })

pub write-Later :
    (f g : FileBackend) (r : FileReader) (p : Str) (n : ℕ × Option Str)
    → write f p ≡ some (g, n)
    → Later f g r
unfolding write
write-Later f g r p n e = go (with_subscription (write_file f p) (notify_all f.subscription)) refl e
  where
    grown_closed : f.file_closed ≡ true → (write_file f p).bytes ≡ f.bytes ++ []
    grown_closed c = rw c (sym (append-nil f.bytes))

    grown_open : f.file_closed ≡ false → (write_file f p).bytes ≡ f.bytes ++ p
    grown_open c = rw c refl

    later :
        (h : FileBackend)
        → with_subscription (write_file f p) (notify_all f.subscription) ≡ some h
        → Later f h r
    later h d = elim (Bool-cases f.file_closed) [
      | inl c ↦ notified-Later f (write_file f p) h r [] (grown_closed c) (λ _. refl) (rw c refl) d
      | inr c ↦
          notified-Later f (write_file f p) h r p (grown_open c) (λ z. ground arith) (rw c refl) d
    ]

    go :
        (o : Option FileBackend)
        → with_subscription (write_file f p) (notify_all f.subscription) ≡ o
        → Option.map {B = FileBackend × (ℕ × Option Str)} (λ h. (h, write_result f p)) o
          ≡ some (g, n)
        → Later f g r
    go none d e = absurd (Option.some-ne-none _ (sym e))
    go (some h) d e = subst (λ h. Later f h r) (ap (λ q. q.0) (Option.some_inj.0 e)) (later h d)

pub flush-Later : (f g : FileBackend) (r : FileReader) → flush f ≡ some g → Later f g r
unfolding flush
flush-Later f g r e = notified-Later f f g r [] (sym (append-nil f.bytes)) (λ c. refl) refl e

pub close-Later : (f : FileBackend) (r : FileReader) → Later f (close f) r
unfolding close
close-Later f r = record {
  added = [];
  grown = sym (append-nil f.bytes);
  stays = λ c. (refl, refl);
  seals = λ c. inl refl;
}

pub take_token-Later : (f : FileBackend) (r : FileReader) → Later f (take_token f r.channel) r
take_token-Later f r = record {
  added = [];
  grown = sym (append-nil f.bytes);
  stays = λ c. (refl, c);
  seals = λ c. inr (sym (same_flag f.subscription.channels 0 r.channel r.channel) ∙ c);
}
