-- ===== src/Distributed/Peers.antt =====
-- GetPeers of extends/distributed/register.go.
use cdp_cache.Base.{
  ◌≡◌, refl, ap, ◌∙◌, Bool, true, false, not, ◌&&◌, ◌||◌, List, [], ◌∷◌, arith, Bool-cases, inl,
  inr, if◌then◌else◌,
}
use cdp_cache.Base.Text.{Str, str_eq, str_eq_refl, str_eq_sound}
use cdp_cache.Distributed.{Service, contains, peers_loop, get_peers, http_address}

-- Whether a service of the name has the address.
abbrev pub is_advertised : Str → Str → List Service → Bool
is_advertised name a [] = false
is_advertised name a (e ∷ es) =
    (str_eq e.service name && str_eq a (http_address e.address)) || is_advertised name a es

abbrev pub Distinct : List Str → Type 0
Distinct [] = Unit
Distinct (x ∷ xs) = (contains x xs ≡ false) × Distinct xs

same_contains :
    (a b : Str) (seen : List Str) → str_eq a b ≡ true → contains a seen ≡ contains b seen
same_contains a b seen h = ap (λ x. contains x seen) (str_eq_sound a b h)

-- One entry of the loop, with its answers: the name fits, the address is known, it is the one looked
-- for, and that one is known.
one_entry :
    (fits known same here adv : Bool) (past added : Bool)
    → (same ≡ true → here ≡ known)
    → past ≡ (not here && adv)
    → added ≡ (not (same || here) && adv)
    → (if not fits then past else if known then past else (same || added))
      ≡ (not here && ((fits && same) || adv))
one_entry fits known same here adv past added w p q = ground arith

contains-if :
    (a : Str) (b : Bool) (xs ys : List Str)
    → contains a (if b then xs else ys) ≡ (if b then contains a xs else contains a ys)
contains-if a true xs ys = refl
contains-if a false xs ys = refl

contains-peers_loop :
    (name a : Str) (es : List Service) (seen : List Str)
    → contains a (peers_loop name seen es) ≡ (not (contains a seen) && is_advertised name a es)
unfolding peers_loop
contains-peers_loop name a [] seen = ground arith
contains-peers_loop name a (e ∷ es) seen =
    let addr = http_address e.address in
    contains-if a (not (str_eq e.service name)) (peers_loop name seen es) _
    ∙ ap (λ b. if not (str_eq e.service name) then contains a (peers_loop name seen es) else b)
        (contains-if a (contains addr seen) (peers_loop name seen es)
          (addr ∷ peers_loop name (addr ∷ seen) es))
    ∙ one_entry (str_eq e.service name) (contains addr seen) (str_eq a addr) (contains a seen)
        (is_advertised name a es) (contains a (peers_loop name seen es))
        (contains a (peers_loop name (addr ∷ seen) es)) (same_contains a addr seen)
        (contains-peers_loop name a es seen) (contains-peers_loop name a es (addr ∷ seen))

peers_loop-Distinct :
    (name : Str) (es : List Service) (seen : List Str) → Distinct (peers_loop name seen es)
unfolding peers_loop
peers_loop-Distinct name [] seen = tt
peers_loop-Distinct name (e ∷ es) seen =
    let addr = http_address e.address in
    let past = peers_loop-Distinct name es seen in
    let added = peers_loop-Distinct name es (addr ∷ seen) in
    elim (Bool-cases (str_eq e.service name)) [
      | inr n ↦ rw n past
      | inl y ↦ elim (Bool-cases (contains addr seen)) [
        | inl k ↦ rw (y, k) past
        | inr k ↦
            rw (y, k)
              (rw (contains-peers_loop name addr es (addr ∷ seen), str_eq_refl addr) refl, added)
      ]
    ]

-- GetPeers returns each address once, and an address is among the peers exactly if some service of
-- the configured name that the catalog lists as healthy has it.
pub peers_are_the_addresses :
    (name : Str) (es : List Service)
    → Distinct (get_peers name es)
      × ((a : Str) → contains a (get_peers name es) ≡ is_advertised name a es)
unfolding get_peers
peers_are_the_addresses name es =
    (peers_loop-Distinct name es [], λ a. contains-peers_loop name a es [])
