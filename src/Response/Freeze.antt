-- ===== src/Response/Freeze.antt =====
-- WriteHeader of response.go freezes the status and the header.
use cdp_cache.Base.{ℕ, ◌≡◌, refl, ◌∙◌, true, Option, none, List, [], ◌∷◌, arith, if◌then◌else◌}
use cdp_cache.Base.Text.{Str, codes, str_eq}
use cdp_cache.Base.Assoc.{lookup, lookup-erase, HasDistinctKeys}
use cdp_cache.Header.{Header, canonical_key, del, copy_headers}
use cdp_cache.Header.Copy.{HasCanonicalKeys, copied, lookup-copy_headers}
use cdp_cache.Response.{
  BackendOps, Response, Outcome, done, blocked, panicked, snapshot, set_header, write_header,
  write_implicit_header, set_body, wait_headers, wait_close, wait_body, write_to_body, write, flush,
  close, finish_close, get_reader,
}

abbrev server : Str
server = codes "Server"

-- The frozen header of a well-formed one: under each name the last value, and nothing for Server.
pub lookup-snapshot :
    (h : Header) (j : Str)
    → HasDistinctKeys h
    → HasCanonicalKeys h
    → lookup j (snapshot h) ≡ (if str_eq server j then none else copied none (lookup j h))
unfolding snapshot del canonical_key
lookup-snapshot h j d c =
    lookup-erase server j (copy_headers h []) ∙ rw (lookup-copy_headers h [] j d c) nothing
  where
    nothing :
        (if str_eq server j then none else copied (lookup j []) (lookup j h))
        ≡ (if str_eq server j then none else copied none (lookup j h))
    nothing = unfold lookup in refl

module _ {B Reader : Type 0} (ops : BackendOps B Reader) (detect : Str → Str) where
  -- What the two goroutines call on a response.
  pub data Call : Type 0 where
    sets : Str → Str → Call
    writes_header : ℕ → Call
    writes : Str → Call
    flushes closes waits_headers waits_close reads : Call
    sets_body : Option B → Call

  abbrev state : {A : Type 0} → Response B → Outcome B A → Response B
  state before (done r a) = r
  state before (blocked r) = r
  state before panicked = before

  -- The response after a call, whether the call returns, waits or panics.
  pub after : Call → Response B → Response B
  after (sets k v) r = set_header k v r
  after (writes_header code) r = state r (write_header code r)
  after (writes buf) r = state r (write ops detect buf r)
  after flushes r = state r (flush ops r)
  after closes r = state r (close ops r)
  after waits_headers r = state r (wait_headers r)
  after waits_close r = state r (wait_close r)
  after reads r = state r (get_reader ops r)
  after (sets_body b) r = state r (set_body b r)

  pub record IsFrozen (code : ℕ) (snap : Header) (r : Response B) : Type 0 where
    pub wrote : r.wrote_header ≡ true
    pub same_code : r.code ≡ code
    pub same_header : r.snap_header ≡ snap

  implicit_header_written :
      (b : Str) (r : Response B)
      → r.wrote_header ≡ true
      → write_implicit_header detect b r ≡ done r tt
  unfolding write_implicit_header
  implicit_header_written b r w = rw w

  after-IsFrozen :
      (code : ℕ) (snap : Header) (c : Call) (r : Response B)
      → IsFrozen code snap r
      → IsFrozen code snap (after c r)
  unfolding after set_header write_header write wait_body write_to_body flush close finish_close
      wait_headers wait_close get_reader set_body
  after-IsFrozen code snap (sets k v) r f = ground arith
  after-IsFrozen code snap (writes buf) r f =
      rw (implicit_header_written buf r f.wrote) (ground arith)
  after-IsFrozen code snap c r f = ground arith

  pub after_all : List Call → Response B → Response B
  after_all [] r = r
  after_all (c ∷ cs) r = after_all cs (after c r)

  -- Once the header is written, no sequence of calls of the upstream and of the handler, further
  -- calls of WriteHeader and changes of the header map included, changes the status or the frozen
  -- header.
  pub after_all-IsFrozen :
      (code : ℕ) (snap : Header) (cs : List Call) (r : Response B)
      → IsFrozen code snap r
      → IsFrozen code snap (after_all cs r)
  unfolding after_all
  after_all-IsFrozen code snap [] r f = f
  after_all-IsFrozen code snap (c ∷ cs) r f =
      after_all-IsFrozen code snap cs (after c r) (after-IsFrozen code snap c r f)
