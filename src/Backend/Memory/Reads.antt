-- ===== src/Backend/Memory/Reads.antt =====
-- What is read of a body that went through InMemoryBackend of backends/memory.go.
use cdp_cache.Base.{
  ◌≡◌, refl, sym, ap, ◌⊎◌, inl, inr, ◌∙◌, true, none, some, List, [], ◌∷◌, ◌++◌, arith,
  append_assoc, append-nil,
}
use cdp_cache.Base.Int.{ℤ}
use cdp_cache.Base.Text.{Str, concat}
use cdp_cache.Backend.Memory.{
  loaded, no_pre_collect, read_of, Fetched, bytes, missing, fetch_error, sunk, GroupCache, IsGroup,
  InMemoryBackend, new_in_memory_backend, getter, write, close, get_reader, reader_with,
}

-- The writes of a body, one after the other.
unfoldable pub write_all : List Str → InMemoryBackend → InMemoryBackend
write_all [] i = i
write_all (p ∷ ps) i = write_all ps (write i p).0

-- What the writes leave: the fields that they do not touch, and the bytes in order.
record Wrote (ps : List Str) (i j : InMemoryBackend) : Type 0 where
  same_key : j.key ≡ i.key
  same_cached : j.cached_bytes ≡ i.cached_bytes
  all_content : j.content ≡ i.content ++ concat ps
  stays_written : i.is_content_written ≡ true → j.is_content_written ≡ true

write_all-Wrote : (ps : List Str) (i : InMemoryBackend) → Wrote ps i (write_all ps i)
unfolding write_all concat write
write_all-Wrote [] i = record {
  same_key = refl;
  same_cached = refl;
  all_content = sym (append-nil i.content);
  stays_written = λ h. h;
}
write_all-Wrote (p ∷ ps) i =
    let w = write_all-Wrote ps (record i { is_content_written = true; content = i.content ++ p }) in
    record {
      same_key = w.same_key;
      same_cached = w.same_cached;
      all_content = w.all_content ∙ append_assoc i.content p (concat ps);
      stays_written = λ h. w.stays_written refl;
    }

-- A backend that is new and has got the body.
unfoldable pub with_body : Str → ℤ → Str → List Str → InMemoryBackend
with_body key expiration p ps = write_all (p ∷ ps) (new_in_memory_backend key expiration)

record HasBody (key body : Str) (i : InMemoryBackend) : Type 0 where
  under : i.key ≡ key
  not_cached : i.cached_bytes ≡ []
  full : i.content ≡ body
  written : i.is_content_written ≡ true

with_body-HasBody :
    (key : Str) (expiration : ℤ) (p : Str) (ps : List Str)
    → HasBody key (concat (p ∷ ps)) (with_body key expiration p ps)
unfolding with_body new_in_memory_backend write_all write concat
with_body-HasBody key expiration p ps =
    let w =
      write_all-Wrote ps (record (new_in_memory_backend key expiration) {
        is_content_written = true;
        content = p;
      }) in
    record {
      under = w.same_key;
      not_cached = w.same_cached;
      full = w.all_content;
      written = w.stays_written refl;
    }

sunk-bytes :
    {G : Type 0} (i : InMemoryBackend) (b : Str) (x : G × Fetched)
    → x.1 ≡ bytes b
    → sunk i x ≡ (record i { cached_bytes = b }, (x.0, bytes b))
sunk-bytes i b (g, bytes c) h = ground arith
sunk-bytes i b (g, missing) h = absurd (ground arith)
sunk-bytes i b (g, fetch_error e) h = absurd (ground arith)

sunk-missing :
    {G : Type 0} (i : InMemoryBackend) (x : G × Fetched)
    → x.1 ≡ missing
    → (read_of (sunk i x)).1.1 ≡ missing
sunk-missing i (g, bytes c) h = absurd (ground arith)
sunk-missing i (g, missing) h = refl
sunk-missing i (g, fetch_error e) h = absurd (ground arith)

module _ {G : Type 0} (group : GroupCache G) (lawful : IsGroup group) where
  -- The reader of a backend that has cached bytes, or whose group answers with them.
  reader_gives :
      (cached : Str) (g : G) (i : InMemoryBackend) (b : Str)
      → i.cached_bytes ≡ cached
      → cached ≡ b ⊎ cached ≡ []
      → (group.get g i.key (getter i.getter_value i.getter_ttl)).1 ≡ bytes b
      → (reader_with group cached g i).1.1 ≡ bytes b
  unfolding reader_with
  reader_gives [] g i b c either h =
      rw (sunk-bytes i b (group.get g i.key (getter i.getter_value i.getter_ttl)) h) refl
  reader_gives (x ∷ xs) g i b c (inl same) h = ap bytes (c ∙ same)
  reader_gives (x ∷ xs) g i b c (inr e) h = absurd (ground arith)

  closed :
      (g : G) (i : InMemoryBackend) (b : Str)
      → i.is_content_written ≡ true
      → (group.get g i.key (loaded i.content i.expiration)).1 ≡ bytes b
      → close group g i ≡ (
        record i {
          getter_value = some i.content;
          getter_ttl = some i.expiration;
          cached_bytes = b;
        },
        ((group.get g i.key (loaded i.content i.expiration)).0, none),
      )
  unfolding close
  closed g i b w h =
      let j = record i { getter_value = some i.content; getter_ttl = some i.expiration } in
      rw (sunk-bytes j b (group.get g i.key (loaded i.content i.expiration)) h, w) refl

  -- Close and then GetReader, if both calls of the group give the same bytes.
  closed_reader :
      (g : G) (i : InMemoryBackend) (b : Str)
      → i.is_content_written ≡ true
      → let first = group.get g i.key (loaded i.content i.expiration) in
        first.1 ≡ bytes b
        → (group.get first.0 i.key (loaded i.content i.expiration)).1 ≡ bytes b
        → let c = close group g i in (c.1.1 ≡ none) × ((get_reader group c.1.0 c.0).1.1 ≡ bytes b)
  unfolding get_reader getter
  closed_reader g i b w first again =
      rw (closed g i b w first) (refl, reader_gives b _ _ b refl (inl refl) again)

  -- A body that is written in pieces, closed, and then read comes back whole, whatever the pieces
  -- are, if the group holds nothing under the key; Close reports no error.
  pub memory_round_trip :
      (g : G) (key : Str) (expiration : ℤ) (p : Str) (ps : List Str)
      → group.holds g key ≡ none
      → let c = close group g (with_body key expiration p ps) in
        (c.1.1 ≡ none) × ((get_reader group c.1.0 c.0).1.1 ≡ bytes (concat (p ∷ ps)))
  memory_round_trip g key expiration p ps free =
      let i = with_body key expiration p ps in
      let w = with_body-HasBody key expiration p ps in
      let body = concat (p ∷ ps) in
      let (first, kept) = lawful.get-loaded g key body i.expiration free in
      closed_reader g i body w.written (rw (w.under, w.full) first) (
        rw (w.under, w.full)
          (elim kept [
            | inl held ↦ (lawful.get-held _ key (loaded body i.expiration) body held).0
            | inr gone ↦ (lawful.get-loaded _ key body i.expiration gone).0
          ]))

  -- If the group still holds a body under the key, then a body that is written under that key is
  -- dropped by Close without an error, and the reader gives the old body.
  pub old_body_is_read :
      (g : G) (key : Str) (expiration : ℤ) (p : Str) (ps : List Str) (old : Str)
      → group.holds g key ≡ some old
      → let c = close group g (with_body key expiration p ps) in
        (c.1.1 ≡ none) × ((get_reader group c.1.0 c.0).1.1 ≡ bytes old)
  old_body_is_read g key expiration p ps old held =
      let i = with_body key expiration p ps in
      let w = with_body-HasBody key expiration p ps in
      let (first, kept) = lawful.get-held g key (loaded i.content i.expiration) old held in
      closed_reader g i old w.written (rw w.under first)
        (rw w.under (lawful.get-held _ key (loaded i.content i.expiration) old kept).0)

  -- A backend that nobody writes to, as the one that stands for the peers: Close does not call the
  -- group, and the reader gives what the group holds, or else the error NoPreCollectError.
  pub unwritten_reads_group :
      (g : G) (key : Str) (expiration : ℤ)
      → let c = close group g (new_in_memory_backend key expiration) in
        (c.1 ≡ (g, none))
        × ((b : Str) → group.holds g key ≡ some b → (get_reader group c.1.0 c.0).1.1 ≡ bytes b)
        × (group.holds g key ≡ none → (get_reader group c.1.0 c.0).1.1 ≡ missing)
  unfolding close get_reader reader_with new_in_memory_backend getter
  unwritten_reads_group g key expiration = (
    refl,
    λ b h.
        rw
          (sunk-bytes (new_in_memory_backend key expiration) b (group.get g key no_pre_collect)
            (lawful.get-held g key no_pre_collect b h).0)
          refl,
    λ h.
        sunk-missing (new_in_memory_backend key expiration) (group.get g key no_pre_collect)
          (lawful.get-missing g key h),
  )
