-- ===== src/Backend/Memory/Variants.antt =====
-- Two variants of a page (cache.go) in the storage of backends/memory.go.
use cdp_cache.Base.{◌≡◌, ◌∙◌, ap, sym, none, some, List, ◌∷◌}
use cdp_cache.Base.Text.{Str, codes}
use cdp_cache.Base.Split.{Lacks}
use cdp_cache.Base.Assoc.{Avoids}
use cdp_cache.Header.{get}
use cdp_cache.Entry.{Entry, key_with_respect_vary}
use cdp_cache.Entry.StorageKey.{comma_space, second_vary_name_ignored}
use cdp_cache.Backend.Memory.{GroupCache, IsGroup, bytes, close, get_reader}
use cdp_cache.Backend.Memory.Reads.{with_body, old_body_is_read}

-- A response that varies on the names n and m, and its request.
pub record VariesOn (n m : Str) (e : Entry) : Type 0 where
  pub vary : get e.snap_header (codes "Vary") ≡ comma_space n m
  pub no_spaced_name : Avoids (b' ' ∷ m) e.request.header

module _ {G : Type 0} (group : GroupCache G) (lawful : IsGroup group) where
  -- Two requests for one page whose responses say "Vary: n, m" agree on n, and the group holds the
  -- body of the first response under its storage key. Then the body of the second response, which
  -- differs in m, is dropped: who is served the second entry reads the body of the first.
  pub second_variant_reads_first :
      (g : G) (first second : Entry) (n m : Str) (p : Str) (ps : List Str) (body : Str)
      → first.key ≡ second.key
      → Lacks b',' n
      → Lacks b',' m
      → VariesOn n m first
      → VariesOn n m second
      → get first.request.header n ≡ get second.request.header n
      → group.holds g (key_with_respect_vary first) ≡ some body
      → let i = with_body (key_with_respect_vary second) second.expiration p ps in
        let c = close group g i in (c.1.1 ≡ none) × ((get_reader group c.1.0 c.0).1.1 ≡ bytes body)
  second_variant_reads_first g first second n m p ps body k hn hm v w agree held =
      let same =
        second_vary_name_ignored first second n m k hn hm v.vary w.vary v.no_spaced_name
          w.no_spaced_name agree in
      old_body_is_read group lawful g (key_with_respect_vary second) second.expiration p ps body
        (ap (group.holds g) (sym same) ∙ held)
