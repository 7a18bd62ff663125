-- ===== src/Backend/Subscription/Removal.antt =====
-- RemoveSubscriber of backends/file.go, which deletes from the slice that it ranges over.
use cdp_cache.Base.{
  ℕ, suc, ◌≡◌, refl, sym, ap, ◌∙◌, true, false, Option, some, List, [], ◌∷◌, ◌++◌, ◌==◌, ltb,
  length, get_elem?, arith, append_assoc, length-append, All, All-append, Bool-cases, inl, inr,
  if◌then◌else◌, subst,
}
use cdp_cache.Backend.Subscription.{
  Subscription, Slice, remove_at, last_cell, delete_at, deleted, visit, remove_loop,
  remove_subscriber, map_slice, with_slice, is_empty,
}

-- The list without the first c.
abbrev pub without : ℕ → List ℕ → List ℕ
without c [] = []
without c (x ∷ xs) = let rest = without c xs in if x == c then xs else x ∷ rest

abbrev pub Others : ℕ → List ℕ → Type 0
Others c = All (λ x. (x == c) ≡ false)

-- The subscriber occurs at most once.
abbrev pub OnceAtMost : ℕ → List ℕ → Type 0
OnceAtMost c [] = Unit
OnceAtMost c (x ∷ xs) = ((x == c) ≡ true → Others c xs) × OnceAtMost c xs

get_elem?-append :
    (pre : List ℕ) (x : ℕ) (post : List ℕ) → get_elem? (pre ++ x ∷ post) (length pre) ≡ some x
get_elem?-append [] x post = refl
get_elem?-append (y ∷ pre) x post = get_elem?-append pre x post

remove_at-append :
    (pre : List ℕ) (x : ℕ) (post : List ℕ) → remove_at (length pre) (pre ++ x ∷ post) ≡ pre ++ post
remove_at-append [] x post = refl
remove_at-append (y ∷ pre) x post = ap (λ l. y ∷ l) (remove_at-append pre x post)

last_cell-append :
    (pre : List ℕ) (x : ℕ) (post : List ℕ) → last_cell (pre ++ x ∷ post) ≡ last_cell (x ∷ post)
last_cell-append [] x post = refl
last_cell-append (y ∷ []) x post = refl
last_cell-append (y ∷ z ∷ pre) x post = last_cell-append (z ∷ pre) x post

last_cell-Others : (c : ℕ) (xs : List ℕ) → Others c xs → Others c (last_cell xs)
last_cell-Others c [] a = tt
last_cell-Others c (x ∷ []) a = a
last_cell-Others c (x ∷ y ∷ xs) (h, a) = last_cell-Others c (y ∷ xs) a

cell :
    (pre : List ℕ) (x : ℕ) (post : List ℕ) (i : ℕ) (s : Slice)
    → i ≡ length pre
    → s.live ++ s.behind ≡ pre ++ x ∷ post
    → get_elem? (s.live ++ s.behind) i ≡ some x
cell pre x post i s p e = rw (e, p) (get_elem?-append pre x post)

visit-other :
    (c i : ℕ) (s : Slice) (x : ℕ) (next : Slice → Option Slice)
    → (x == c) ≡ false
    → visit c i s next (some x) ≡ next s
unfolding visit
visit-other c i s x next h = rw h refl

visit-found :
    (c i : ℕ) (s : Slice) (x : ℕ) (next : Slice → Option Slice)
    → (x == c) ≡ true
    → visit c i s next (some x) ≡ deleted next (delete_at i s)
unfolding visit
visit-found c i s x next h = rw h refl

delete_at-append :
    (pre : List ℕ) (x : ℕ) (post behind : List ℕ)
    → delete_at (length pre) (record { live = pre ++ x ∷ post; behind = behind })
      ≡ some (record { live = pre ++ post; behind = last_cell (x ∷ post) ++ behind })
unfolding delete_at
delete_at-append pre x post behind =
    rw (inside pre x post, remove_at-append pre x post, last_cell-append pre x post) refl
  where
    inside :
        (pre : List ℕ) (x : ℕ) (post : List ℕ) → ltb (length pre) (length (pre ++ x ∷ post)) ≡ true
    inside pre x post = ground (arith, length-append pre (x ∷ post))

-- The rounds over cells that are not the subscriber.
remove_loop-Others :
    (c : ℕ) (pre good more : List ℕ) (i : ℕ) (s : Slice)
    → Others c good
    → i ≡ length pre
    → s.live ++ s.behind ≡ pre ++ (good ++ more)
    → remove_loop c (length good) i s ≡ some s
unfolding remove_loop
remove_loop-Others c pre [] more i s a p e = refl
remove_loop-Others c pre (x ∷ good) more i s (h, a) p e =
    ap (visit c i s (λ t. remove_loop c (length good) (suc i) t))
      (cell pre x (good ++ more) i s p e)
    ∙ visit-other c i s x _ h
    ∙ remove_loop-Others c (pre ++ x ∷ []) good more (suc i) s a
        (omega (arith, p, length-append pre (x ∷ [])))
        (e ∙ sym (append_assoc pre (x ∷ []) (good ++ more)))

length-last_cell : (x : ℕ) (xs : List ℕ) → length (last_cell (x ∷ xs)) ≡ 1
length-last_cell x [] = refl
length-last_cell x (y ∷ xs) = length-last_cell y xs

regroup :
    (pre : List ℕ) (z : ℕ) (zs l b : List ℕ)
    → (pre ++ z ∷ zs) ++ (l ++ b) ≡ (pre ++ z ∷ []) ++ ((zs ++ l) ++ b)
regroup [] z zs l b = ap (λ r. z ∷ r) (sym (append_assoc zs l b))
regroup (y ∷ pre) z zs l b = ap (λ r. y ∷ r) (regroup pre z zs l b)

-- The rounds behind the deleted cell find the last subscriber twice, and never the deleted one.
rounds_behind :
    (c x : ℕ) (pre post behind : List ℕ)
    → Others c post
    → let t : Slice = record { live = pre ++ post; behind = last_cell (x ∷ post) ++ behind } in
      remove_loop c (length post) (suc (length pre)) t ≡ some t
unfolding remove_loop
rounds_behind c x pre [] behind a = refl
rounds_behind c x pre (z ∷ zs) behind (h, a) =
    let good = zs ++ last_cell (z ∷ zs) in
    let same_length : length good ≡ length (z ∷ zs) =
      omega (arith, length-append zs (last_cell (z ∷ zs)), length-last_cell z zs) in
    let t : Slice = record { live = pre ++ z ∷ zs; behind = last_cell (z ∷ zs) ++ behind } in
    subst (λ k. remove_loop c k (suc (length pre)) t ≡ some t) same_length
      (remove_loop-Others c (pre ++ z ∷ []) good behind (suc (length pre)) t
        (All-append (λ y. (y == c) ≡ false) zs (last_cell (z ∷ zs)) a
          (last_cell-Others c (z ∷ zs) (h, a)))
        (omega (arith, length-append pre (z ∷ []))) (regroup pre z zs (last_cell (z ∷ zs)) behind))

-- The rounds from a cell on, with the slice as it was at the start of the loop.
remove_loop-without :
    (c : ℕ) (pre post behind : List ℕ) (s : Slice)
    → OnceAtMost c post
    → s ≡ record { live = pre ++ post; behind = behind }
    → (t : Slice) × (remove_loop c (length post) (length pre) s ≡ some t)
      × (t.live ≡ pre ++ without c post)
unfolding remove_loop
remove_loop-without c pre [] behind s o e = (s, refl, ap (λ t. t.live) e)
remove_loop-without c pre (x ∷ post) behind s (h, o) e = elim (Bool-cases (x == c)) [
  | inl y ↦ (
    record { live = pre ++ post; behind = last_cell (x ∷ post) ++ behind },
    here
        ∙ visit-found c (length pre) s x _ y
        ∙ ap (deleted (λ t. remove_loop c (length post) (suc (length pre)) t))
            (ap (delete_at (length pre)) e ∙ delete_at-append pre x post behind)
        ∙ rounds_behind c x pre post behind (h y),
    rw y refl,
  )
  | inr n ↦
      let (t, r, l) = remove_loop-without c (pre ++ x ∷ []) post behind s o (
        e
        ∙ ap (λ l. record { live = l; behind = behind }) (sym (append_assoc pre (x ∷ []) post))) in
      (
        t,
        here
            ∙ visit-other c (length pre) s x _ n
            ∙ subst (λ k. remove_loop c (length post) k s ≡ some t)
                (omega (arith, length-append pre (x ∷ []))) r,
        rw n (l ∙ append_assoc pre (x ∷ []) (without c post)),
      )
]
  where
    here :
        remove_loop c (suc (length post)) (length pre) s
        ≡ visit c (length pre) s (λ t. remove_loop c (length post) (suc (length pre)) t) (some x)
    here = ap (visit c (length pre) s (λ t. remove_loop c (length post) (suc (length pre)) t)) (
        cell pre x (post ++ behind) (length pre) s refl
          (ap (λ t. t.live ++ t.behind) e ∙ append_assoc pre (x ∷ post) behind))

-- A subscriber that occurs at most once is removed, and the others stay in their order: the deletion
-- from the slice that the loop ranges over skips none of them and never leaves the array. If none is
-- left, the channel of WaitAll gets its token.
pub remove_subscriber-without :
    (s : Subscription) (c : ℕ)
    → OnceAtMost c s.subscribers
    → (t : Subscription) × (remove_subscriber s c ≡ some t)
      × (t.subscribers ≡ without c s.subscribers)
      × (t.no_subscriber_chan
          ≡ (if is_empty (without c s.subscribers) then 1 else s.no_subscriber_chan))
unfolding remove_subscriber
remove_subscriber-without s c o =
    let (t, r, l) =
      remove_loop-without c [] s.subscribers s.vacated
        (record { live = s.subscribers; behind = s.vacated }) o refl in
    (
      with_slice s t,
      ap (map_slice s) r,
      l,
      ap (λ xs. if is_empty xs then 1 else s.no_subscriber_chan) l,
    )
