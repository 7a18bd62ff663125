-- ===== src/Handler/Peers.antt =====
-- ServeHTTP with the distributed cache on: the entry that is made to ask the peers.
use cdp_cache.Base.{◌≡◌, ◌≢◌, refl, true, false, none, some, [], ◌++◌, inl}
use cdp_cache.Base.Text.{codes, str_eq_of_ne}
use cdp_cache.Http.{Request, Writer}
use cdp_cache.Config.{Config}
use cdp_cache.Entry.{Entry, new_entry}
use cdp_cache.Store as Caches
use cdp_cache.Store.{HttpCache, Task, put}
use cdp_cache.Store.Invariant.{IsValid, put-IsValid}
use cdp_cache.Response.{
  Response, done, ◌>>◌, new_response, set_body, wait_body, close, finish_close,
}
use cdp_cache.Backend.{AnyBackend, any_ops}
use cdp_cache.Handler.{
  hangs, should_use_cache, respond, write_body_to, write_private_response, cache_hit,
}
use cdp_cache.Handler.Serve.{
  World, at_lookup, at_peers, State, never, key, peer_entry, new_storage, store, serve_cached,
  ask_peers, serve_locked, serve_http,
}

module _ {B Reader : Type 0} (o : World B Reader) (config : Config) (req : Request) where
  -- The response after setBackend and Close: the token of SetBody is still in its channel.
  closed_response :
      (b : B)
      → (r : Response (AnyBackend B)) × ((set_body (some (inl b)) >> close (any_ops o.ops))
            new_response
          ≡ done r tt)
        × (r.body_chan ≡ 1)
  unfolding set_body wait_body close finish_close new_response
  closed_response b = (_, refl, refl)

  second_set_body_hangs :
      (r : Response (AnyBackend B)) (e : Entry) (w : Writer)
      → r.body_chan ≡ 1
      → e.is_public ≡ false
      → e.request.method ≢ codes "HEAD"
      → (respond o.ops config cache_hit e r [] (o.reading at_peers e) w).1 ≡ hangs
  unfolding respond write_body_to write_private_response set_body
  second_set_body_hangs r e w full p n = rw (str_eq_of_ne n, p, full) refl

  -- With the distributed cache on and a valid cache that may be used and has nothing, a request
  -- other than HEAD never returns if the empty response that stands for the peers' one is judged not
  -- to be public and its storage can be made.
  pub private_peers_hang :
      (s : State) (b : B)
      → should_use_cache req config ≡ true
      → Caches.get s.cache (key o config true req) req false (o.clock at_lookup) ≡ some none
      → IsValid s.cache
      → (peer_entry o config true req).is_public ≡ false
      → new_storage o config true req (peer_entry o config true req) ≡ (some b, none)
      → req.method ≢ codes "HEAD"
      → (t : State) × (serve_http o config true req s ≡ some (t, never))
  unfolding serve_http serve_locked serve_cached ask_peers store
  private_peers_hang s b uses missing v p q n =
      let (h, ts, e, w) = put-IsValid s.cache (peer_entry o config true req) config v in
      let (r, d, full) = closed_response b in
      let e0 = peer_entry o config true req in
      let ended = respond o.ops config cache_hit e0 r [] (o.reading at_peers e0) s.writer in
      let hung =
        second_set_body_hangs r (peer_entry o config true req) s.writer full p
          (unfold peer_entry new_entry in n) in
      (
        record s { cache = h; tasks = s.tasks ++ ts; writer = ended.0 },
        rw (uses, missing, q, e, d, hung) refl,
      )
