-- ===== src/Handler/Repeats.antt =====
-- ServeHTTP for one request after another: the first is a miss, and the others are hits.
pub mod Tests
use cdp_cache.Base.{ℕ, suc, ◌≡◌, ◌≢◌, refl, ◌∙◌, true, false, Option, none, some, List, [], ◌∷◌}
use cdp_cache.Base.Text.{Str, codes}
use cdp_cache.Http.{Request, Writer}
use cdp_cache.Config.{Config}
use cdp_cache.Status.{Clock}
use cdp_cache.Entry.{Entry}
use cdp_cache.Store as Caches
use cdp_cache.Store.Place.{StaysFresh}
use cdp_cache.Store.Invariant.{IsValid}
use cdp_cache.Handler.{opened, should_use_cache}
use cdp_cache.Handler.Serve.{
  World, at_lookup, State, Reply, served, ◌>>=◌, key, fetched_entry, new_storage, serve_http,
  on_writer,
}
use cdp_cache.Handler.Hit.{Delivered, hit_served}
use cdp_cache.Handler.Miss.{Misses, fetched_entry-fields, miss_then_holds}

-- A call with its own writer, its own clock, and what its backends and its upstream do.
pub record Visit (B Reader : Type 0) : Type 1 where
  pub world : World B Reader
  pub writer : Writer

module _ {B Reader : Type 0} (config : Config) (req : Request) where
  -- The calls one after the other on the same cache, with the writer and the end of each.
  unfoldable pub visits : State → List (Visit B Reader) → Option (State × List (Writer × Reply))
  visits s [] = some (s, [])
  visits s (v ∷ vs) = do
    (t, reply) ← serve_http v.world config false req (on_writer s v.writer)
    (u, answers) ← visits t vs
    some (u, (t.writer, reply) ∷ answers)

  -- During the call the entry is under the key of the request, it is fresh at the lookup, its body
  -- can be read, and no status has been sent yet.
  pub record Finds (e : Entry) (k content : Str) (v : Visit B Reader) : Type 0 where
    pub same_key : key v.world config false req ≡ k
    pub fresh : StaysFresh e (v.world.clock at_lookup)
    pub size : ℕ
    pub readable : v.world.reading at_lookup e ≡ opened size content none
    pub unsent : v.writer.status ≡ none

  abbrev pub AllFind : Entry → Str → Str → List (Visit B Reader) → Type 0
  AllFind e k content [] = Unit
  AllFind e k content (v ∷ vs) = Finds e k content v × AllFind e k content vs

  -- Each of the calls has ended without an error, and its client has the status of the entry and
  -- the body.
  abbrev pub AllDelivered : Entry → Str → List (Visit B Reader) → List (Writer × Reply) → Type 0
  AllDelivered e content [] [] = Unit
  AllDelivered e content [] (a ∷ answers) = ⊥
  AllDelivered e content (v ∷ vs) [] = ⊥
  AllDelivered e content (v ∷ vs) (a ∷ answers) =
      Delivered v.world config false req e content v.writer a.0
      × (a.1 ≡ served)
      × AllDelivered e content vs answers

  visits_hit :
      (s : State) (e : Entry) (k content : Str) (vs : List (Visit B Reader))
      → should_use_cache req config ≡ true
      → ((clock : Clock)
          → StaysFresh e clock
          → Caches.get s.cache k req false clock ≡ some (some e))
      → e.is_public ≡ true
      → e.request.method ≢ codes "HEAD"
      → AllFind e k content vs
      → (t : State) × (answers : List (Writer × Reply)) × (visits s vs ≡ some (t, answers))
        × (t.fetches ≡ s.fetches)
        × AllDelivered e content vs answers
  unfolding visits
  visits_hit s e k content [] uses found p n a = (s, [], refl, refl, tt)
  visits_hit s e k content (v ∷ vs) uses found p n (f, a) =
      let get : Caches.get s.cache (key v.world config false req) req false
            (v.world.clock at_lookup)
          ≡ some (some e) =
        rw (f.same_key) (found (v.world.clock at_lookup) f.fresh) in
      let (w, ends, d) =
        hit_served v.world config false req (on_writer s v.writer) e f.size content uses get p n
          f.unsent f.readable in
      let (u, answers, rest, asked, all) =
        visits_hit (on_writer s w) e k content vs uses found p n a in
      (u, (w, served) ∷ answers, rw (ends, rest) refl, asked, (d, refl, all))

  -- Without the distributed cache, if the cache is valid, may be used and has nothing, and the
  -- upstream answers a request other than HEAD below 500, without an error and with a public
  -- response whose storage can be made, then the upstream is asked for that call and for none of
  -- any number of calls for the same request after it, each with its own clock and writer, during
  -- whose lookups the response is fresh and its body can be read: each of these ends without an
  -- error, and its client, to whom no status has been sent before, gets the status of the response
  -- and the stored body.
  pub one_fetch :
      (o : World B Reader) (s : State) (b : Option B) (content : Str) (vs : List (Visit B Reader))
      → Misses o config req s
      → IsValid s.cache
      → (fetched_entry o config false req).is_public ≡ true
      → new_storage o config false req (fetched_entry o config false req) ≡ (b, none)
      → req.method ≢ codes "HEAD"
      → AllFind (fetched_entry o config false req) (key o config false req) content vs
      → (t : State) × (r : Reply) × (u : State) × (answers : List (Writer × Reply)) × (serve_http o
            config false req s
          ≡ some (t, r))
        × (visits t vs ≡ some (u, answers))
        × (u.fetches ≡ suc s.fetches)
        × AllDelivered (fetched_entry o config false req) content vs answers
  one_fetch o s b content vs m v p q n a =
      let e = fetched_entry o config false req in
      let (same, under, code) = fetched_entry-fields o config req in
      let (t, r, ends, asked, found) = miss_then_holds o config req s b m v p q in
      let (u, answers, rest, kept, all) =
        visits_hit t e (key o config false req) content vs m.allowed
          (λ clock f. found false clock f) p (rw same n) a in
      (t, r, u, answers, ends, rest, kept ∙ asked, all)
