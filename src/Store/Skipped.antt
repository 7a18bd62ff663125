-- ===== src/Store/Skipped.antt =====
-- The loop of Del of cache.go on a key with several entries.
use cdp_cache.Base.{
  ℕ, zero, suc, ◌≡◌, ◌≢◌, refl, ap, ◌∙◌, inl, inr, Bool, true, ==_refl, none, some, List, [], ◌∷◌,
  ◌++◌, arith, Bool-cases, Option-cases, get_elem?, All, All-append, length,
}
use cdp_cache.Base.Text.{Str, str_eq_refl}
use cdp_cache.Status.{Clock}
use cdp_cache.Entry.{Entry, is_fresh}
use cdp_cache.Entry.Vary.{match_vary_refl}
use cdp_cache.Store.{HttpCache, Slot, find_entry, get, later}
use cdp_cache.Store.Cleaning.{
  Outside, CleanResult, remove_entry, last_entry, shrunk, clean_entry, cells, del_loop, del,
}
use cdp_cache.Store.Place.{StaysFresh}
use cdp_cache.Store.Purge.{
  bucket_of_slot, CleanedBy, clean_entry-CleanedBy, remove_entry-All, del-loop, first_round,
  first_round_fails,
}
use cdp_cache.Store.Lookup.{slot_of, get-slot_of}

-- The slot of the key begins with b, and no other cell of its array holds b or an entry of
-- another key.
pub record BeginsWith (b : Entry) (key : Str) (h : HttpCache) : Type 0 where
  pub slot : Slot
  pub found : slot_of h key ≡ some slot
  pub tail : List Entry
  pub begins : slot.live ≡ b ∷ tail
  pub others : All (λ x. (x.ident ≢ b.ident) × (x.key ≡ key)) (tail ++ slot.vacated)

All-append_left {κ} : (P : Entry → Type κ) (xs ys : List Entry) → All P (xs ++ ys) → All P xs
All-append_left P [] ys a = tt
All-append_left P (x ∷ xs) ys (p, a) = (p, All-append_left P xs ys a)

All-append_right {κ} : (P : Entry → Type κ) (xs ys : List Entry) → All P (xs ++ ys) → All P ys
All-append_right P [] ys a = a
All-append_right P (x ∷ xs) ys (p, a) = All-append_right P xs ys a

All-get_elem? {κ} :
    (P : Entry → Type κ) (xs : List Entry) (i : ℕ) {x : Entry}
    → All P xs
    → get_elem? xs i ≡ some x
    → P x
All-get_elem? P [] i a h = absurd (ground arith)
All-get_elem? P (y ∷ xs) zero {x} (p, a) h = let same : x ≡ y = ground arith in rw same p
All-get_elem? P (y ∷ xs) (suc i) (p, a) h = All-get_elem? P xs i a h

-- Cleaning another entry of the key keeps b in front.
clean_entry-BeginsWith :
    (o : Outside) (h : HttpCache) (b x : Entry) (key : Str)
    → x.ident ≢ b.ident
    → x.key ≡ key
    → BeginsWith b key h
    → (g : HttpCache) × (r : CleanResult) × (clean_entry o h x ≡ some (g, r)) × BeginsWith b key g
clean_entry-BeginsWith o h b x key n k w =
    let (g, r, e, c) = clean_entry-CleanedBy o h x w.slot (rw k w.found) in (g, r, e, keeps g c)
  where
    P : Entry → Type 0
    P y = (y.ident ≢ b.ident) × (y.key ≡ key)

    removed :
        (rest : List Entry)
        → remove_entry x w.slot.live ≡ some rest
        → (t : List Entry) × (rest ≡ b ∷ t) × (remove_entry x w.tail ≡ some t)
    removed rest m = elim (Option-cases (remove_entry x w.tail)) [
      | inl q ↦ absurd (unfold remove_entry in ground (arith, w.begins, n))
      | inr (t, q) ↦ (t, unfold remove_entry in ground (arith, w.begins, n, q), q)
    ]

    keeps : (g : HttpCache) → CleanedBy x h w.slot g → BeginsWith b key g
    keeps g (inl (_, same)) = rw same w
    keeps g (inr (rest, m, view)) =
        let (t, q, s) = removed rest m in
        let (a, l) =
          remove_entry-All P x b w.tail s (All-append_left P w.tail w.slot.vacated w.others) in
        record {
          slot = shrunk x rest w.slot;
          found = view key ∙ rw (k, str_eq_refl key);
          tail = t;
          begins = q;
          others =
              All-append P t (last_entry x w.slot.live ∷ w.slot.vacated) a
                (rw w.begins l, All-append_right P w.tail w.slot.vacated w.others);
        }

cells-BeginsWith :
    (h : HttpCache) (b : Entry) (key : Str) (w : BeginsWith b key h)
    → cells h key ≡ b ∷ w.tail ++ w.slot.vacated
unfolding cells
cells-BeginsWith h b key w =
    let (bucket, found, same) = bucket_of_slot h key w.slot w.found in
    ground (arith, found, same, w.begins)

-- From the second cell on the loop of Del never meets b.
del_loop-BeginsWith :
    (o : Outside) (b : Entry) (key : Str) (rounds i : ℕ) (clock : Clock) (h : HttpCache)
    → BeginsWith b key h
    → (g : HttpCache) × (r : CleanResult) × (del_loop o key rounds (suc i) clock h ≡ some (g, r))
      × BeginsWith b key g
unfolding del_loop
del_loop-BeginsWith o b key zero i clock h w = (h, ([], none), refl, w)
del_loop-BeginsWith o b key (suc rounds) i clock h w =
    let next = λ (g : HttpCache) (v : BeginsWith b key g).
      del_loop-BeginsWith o b key rounds (suc i) (later clock) g v in
    elim (Option-cases (get_elem? (w.tail ++ w.slot.vacated) i)) [
      | inl n ↦ (h, ([], none), ground (arith, cells-BeginsWith h b key w, n), w)
      | inr (x, q) ↦
          let (differs, k) = All-get_elem? _ (w.tail ++ w.slot.vacated) i w.others q in
          let (g, r, e, v) = clean_entry-BeginsWith o h b x key differs k w in
          elim (Bool-cases (is_fresh x (clock 0))) [
            | inl fresh ↦ elim (Option-cases r.1) [
              | inl fine ↦
                  let (g', r', e', v') = next g v in
                  (
                    g',
                    (r.0 ++ r'.0, r'.1),
                    ground (arith, cells-BeginsWith h b key w, q, fresh, e, fine, e'),
                    v',
                  )
              | inr (err, broken) ↦
                  (g, r, ground (arith, cells-BeginsWith h b key w, q, fresh, e, broken), v)
            ]
            | inr stale ↦
                let (g', r', e', v') = next h w in
                (g', r', ground (arith, cells-BeginsWith h b key w, q, stale, e'), v')
          ]
    ]

-- What the array of a slot holds once its first entry, out of three or more, is deleted.
first_removed :
    (o : Outside) (h : HttpCache) (a b c : Entry) (rest vacated : List Entry) (key : Str)
    → slot_of h key ≡ some (record { live = a ∷ b ∷ c ∷ rest; vacated = vacated })
    → a.key ≡ key
    → All (λ x. (x.ident ≢ b.ident) × (x.key ≡ key)) ((c ∷ rest) ++ vacated)
    → (g : HttpCache) × (r : CleanResult) × (clean_entry o h a ≡ some (g, r)) × BeginsWith b key g
first_removed o h a b c rest vacated key q k others =
    let (g, r, e, cleaned) = clean_entry-CleanedBy o h a slot (ap (slot_of h) k ∙ q) in
    (g, r, e, begins g cleaned)
  where
    slot : Slot
    slot = record { live = a ∷ b ∷ c ∷ rest; vacated = vacated }

    P : Entry → Type 0
    P x = (x.ident ≢ b.ident) × (x.key ≡ key)

    last-P : (x : Entry) (xs : List Entry) → P x → All P xs → P (last_entry x xs)
    last-P x [] p a = p
    last-P x (y ∷ ys) p (q, a) = last-P y ys q a

    head_removed : remove_entry a (a ∷ b ∷ c ∷ rest) ≡ some (b ∷ c ∷ rest)
    head_removed = unfold remove_entry in ground (arith, ==_refl a.ident)

    begins : (g : HttpCache) → CleanedBy a h slot g → BeginsWith b key g
    begins g (inl (n, _)) = absurd (ground (arith, head_removed))
    begins g (inr (r, m, view)) = record {
      slot = shrunk a r slot;
      found = view key ∙ rw (k, str_eq_refl key);
      tail = c ∷ rest;
      begins = ground (arith, head_removed);
      others =
          All-append P (c ∷ rest) (last_entry a slot.live ∷ vacated)
            (All-append_left P (c ∷ rest) vacated others)
            (
              last-P c rest others.0 (All-append_left P rest vacated others.1),
              All-append_right P (c ∷ rest) vacated others,
            );
    }

get-BeginsWith :
    (h : HttpCache) (b : Entry) (key : Str) (stale : Bool) (clock : Clock)
    → BeginsWith b key h
    → StaysFresh b clock
    → get h key b.request stale clock ≡ some (some b)
unfolding find_entry
get-BeginsWith h b key stale clock w f =
    rw (get-slot_of h key b.request stale clock, w.found)
      (ground (arith, w.begins, f 0, match_vary_refl b))

-- Del walks over a slice that its own deletions shift. If a key has three entries or more, all
-- cells behind the second hold entries of that key with other addresses than the second's, and the
-- first is fresh, then Del returns, and Get still answers the request of the second entry with it,
-- as long as it is fresh.
pub del_skips_second :
    (o : Outside) (h : HttpCache) (a b c : Entry) (rest vacated : List Entry) (key : Str)
    (clock after : Clock) (stale : Bool)
    → slot_of h key ≡ some (record { live = a ∷ b ∷ c ∷ rest; vacated = vacated })
    → a.key ≡ key
    → All (λ x. (x.ident ≢ b.ident) × (x.key ≡ key)) ((c ∷ rest) ++ vacated)
    → is_fresh a (clock 0) ≡ true
    → StaysFresh b after
    → (g : HttpCache) × (r : CleanResult) × (del o key clock h ≡ some (g, r))
      × (get g key b.request stale after ≡ some (some b))
del_skips_second o h a b c rest vacated key clock after stale q k others fresh later_fresh =
    let (start, array) = del-loop o h key clock a (b ∷ c ∷ rest) vacated q in
    let (g, (bodies, err), e, w) = first_removed o h a b c rest vacated key q k others in
    elim (Option-cases err) [
      | inl fine ↦
          let (g', r', e', v) =
            del_loop-BeginsWith o b key (suc (suc (length rest))) 0 (later clock) g w in
          (
            g',
            (bodies ++ r'.0, r'.1),
            start ∙ first_round o h g key _ clock a _ bodies array fresh (rw (← fine) e) e',
            get-BeginsWith g' b key stale after v later_fresh,
          )
      | inr (m, broken) ↦ (
        g,
        (bodies, some m),
        start ∙ first_round_fails o h g key _ clock a _ bodies m array fresh (rw (← broken) e),
        get-BeginsWith g b key stale after w later_fresh,
      )
    ]
