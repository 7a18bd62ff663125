-- ===== src/Handler/Safety/Parts.antt =====
-- What the parts of ServeHTTP keep: the lookup, the storing, the peers, the answers.
use cdp_cache.Base.{
  ℕ, ◌≡◌, refl, inl, inr, Bool, true, false, Option, none, some, Bool-cases, if◌then◌else◌, ◌++◌,
  List, [], ◌∷◌, All,
}
use cdp_cache.Base.Text.{Str}
use cdp_cache.Http.{Request, Writer}
use cdp_cache.Config.{Config}
use cdp_cache.Entry.{Entry, new_entry}
use cdp_cache.Store.Invariant.{IsValid, put-IsValid}
use cdp_cache.Store.Puts.{put_all, put_all-snoc, All-snoc}
use cdp_cache.Response.{Outcome, done, blocked, panicked, ◌>>◌, new_response, set_body, close}
use cdp_cache.Backend.{AnyBackend, any_ops}
use cdp_cache.Handler.{Ending, answered, fails, hangs, crashes, no_pre_collect, failed}
use cdp_cache.Handler.Serve.{
  World, Moment, State, settle_miss, answer_peers, settle, settle_peers, serve_cached, peer_entry,
  new_storage, fetched_entry, store, ask_peers, answer_fetched, peers_with, key, as_backend,
}

-- What holds of both branches holds of a conditional.
pub either_way :
    {A : Type 0} (P : A → Type 0) (b : Bool) {x y : A} → P x → P y → P (if b then x else y)
either_way P true p q = p
either_way P false p q = q

module _ {B Reader : Type 0} (o : World B Reader) (config : Config) (distributed : Bool)
    (req : Request) (start : State) where
  -- The cache and the tasks are what Puts of entries under the key of the request have made of those
  -- at the start.
  abbrev pub Stored : State → Type 0
  Stored s =
      (es : List Entry) × (put_all config es (start.cache, start.tasks) ≡ some (s.cache, s.tasks))
      × All (λ e. e.key ≡ key o config distributed req) es

  -- The cache is valid, the upstream was asked n times, and nothing but Puts has happened.
  pub record Fine (n : ℕ) (s : State) : Type 0 where
    pub valid : IsValid s.cache
    pub asked : s.fetches ≡ n
    pub stored : Stored s

  -- The result is there, with a state as it should be.
  abbrev pub Ends : {R : Type 0} → ℕ → Option (State × R) → Type 0
  Ends {R} n x = (t : State) × (r : R) × (x ≡ some (t, r)) × Fine n t

  pub ends :
      {R : Type 0} {x : Option (State × R)} (n : ℕ) (y : State × R)
      → x ≡ some y
      → Fine n y.0
      → Ends n x
  ends n (t, r) p f = (t, r, p, f)

  pub settle-Fine :
      (n : ℕ) (s : State) (e : Entry) (w : Writer) (d : Ending)
      → Fine n s
      → Fine n (settle o config distributed req s e w d).0
  settle-Fine n s e w answered f = record { valid = f.valid; asked = f.asked; stored = f.stored }
  settle-Fine n s e w (fails no_pre_collect) f = record {
    valid = f.valid;
    asked = f.asked;
    stored = f.stored;
  }
  settle-Fine n s e w (fails (failed m)) f = record {
    valid = f.valid;
    asked = f.asked;
    stored = f.stored;
  }
  settle-Fine n s e w hangs f = record { valid = f.valid; asked = f.asked; stored = f.stored }
  settle-Fine n s e w crashes f = record { valid = f.valid; asked = f.asked; stored = f.stored }

  pub serve_cached-Fine :
      (n : ℕ) (m : Moment) (s : State) (found : Option Entry)
      → Fine n s
      → Fine n (serve_cached o config distributed req m s found).0
  unfolding serve_cached
  serve_cached-Fine n m s none f = f
  serve_cached-Fine n m s (some e) f = elim (Bool-cases e.is_public) [
    | inl p ↦ rw p (settle-Fine n s e _ _ f)
    | inr p ↦ rw p f
  ]

  pub store-Fine :
      (n : ℕ) (s : State) (e : Entry)
      → e.key ≡ key o config distributed req
      → Fine n s
      → (t : State) × (store o config distributed req s e ≡ some t) × Fine n t
  unfolding store
  store-Fine n s e k f =
      let (g, ts, p, v) = put-IsValid s.cache e config f.valid in
      let (es, q, a) = f.stored in
      (
        record s { cache = g; tasks = s.tasks ++ ts },
        rw p refl,
        record {
          valid = v;
          asked = f.asked;
          stored = (
            es ++ e ∷ [],
            put_all-snoc config es e (start.cache, start.tasks) (s.cache, s.tasks) q p,
            All-snoc (λ (x : Entry). x.key ≡ key o config distributed req) es a k,
          );
        },
      )

  pub settle_peers-Fine :
      (n : ℕ) (s : State) (e : Entry) (w : Writer) (d : Ending)
      → Fine n s
      → Fine n (settle_peers o config distributed req s e w d).0
  settle_peers-Fine n s e w answered f = record {
    valid = f.valid;
    asked = f.asked;
    stored = f.stored;
  }
  settle_peers-Fine n s e w (fails no_pre_collect) f = record {
    valid = f.valid;
    asked = f.asked;
    stored = f.stored;
  }
  settle_peers-Fine n s e w (fails (failed m)) f = record {
    valid = f.valid;
    asked = f.asked;
    stored = f.stored;
  }
  settle_peers-Fine n s e w hangs f = record { valid = f.valid; asked = f.asked; stored = f.stored }
  settle_peers-Fine n s e w crashes f = record {
    valid = f.valid;
    asked = f.asked;
    stored = f.stored;
  }

  pub answer_peers-Fine :
      (n : ℕ) (s : State) (d : Outcome (AnyBackend B) (Unit {0}))
      → Fine n s
      → Fine n (answer_peers o config distributed req s d).0
  answer_peers-Fine n s (done r t) f =
      settle_peers-Fine n s (peer_entry o config distributed req) _ _ f
  answer_peers-Fine n s (blocked r) f = f
  answer_peers-Fine n s panicked f = f

  pub peer_entry-key : (peer_entry o config distributed req).key ≡ key o config distributed req
  unfolding peer_entry new_entry
  peer_entry-key = refl

  pub fetched_entry-key :
      (fetched_entry o config distributed req).key ≡ key o config distributed req
  unfolding fetched_entry new_entry
  fetched_entry-key = refl

  pub peers_with-Fine :
      (n : ℕ) (s : State) (b : Option B × Option Str)
      → Fine n s
      → Ends n (peers_with o config distributed req s b)
  peers_with-Fine n s (b, some e) f = (s, _, refl, f)
  peers_with-Fine n s (b, none) f =
      let (t, p, g) = store-Fine n s (peer_entry o config distributed req) peer_entry-key f in
      ends n
        (answer_peers o config distributed req t (
          (set_body (as_backend o config distributed req b) >> close (any_ops o.ops)) new_response))
        (rw p refl) (answer_peers-Fine n t _ g)

  pub ask_peers-Fine :
      (n : ℕ) (s : State) → Fine n s → Ends n (ask_peers o config distributed req s)
  unfolding ask_peers
  ask_peers-Fine n s f =
      either_way (Ends n) distributed
        (peers_with-Fine n s
          (new_storage o config distributed req (peer_entry o config distributed req)) f)
        (s, none, refl, f)

  pub settle_miss-Fine :
      (n : ℕ) (s : State) (w : Writer) (d : Ending)
      → Fine n s
      → Fine n (settle_miss o config distributed req s w d).0
  settle_miss-Fine n s w answered f = record { valid = f.valid; asked = f.asked; stored = f.stored }
  settle_miss-Fine n s w (fails d) f = record {
    valid = f.valid;
    asked = f.asked;
    stored = f.stored;
  }
  settle_miss-Fine n s w hangs f = record { valid = f.valid; asked = f.asked; stored = f.stored }
  settle_miss-Fine n s w crashes f = record { valid = f.valid; asked = f.asked; stored = f.stored }

  pub answer_fetched-Fine :
      (n : ℕ) (status : Str) (s : State)
      → Fine n s
      → Fine n (answer_fetched o config distributed req status s).0
  unfolding answer_fetched
  answer_fetched-Fine n status s f = settle_miss-Fine n s _ _ f
