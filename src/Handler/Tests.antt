-- ===== src/Handler/Tests.antt =====
-- Runs of the middleware, and its theorems at concrete requests.
use cdp_cache.Base.{ℕ, ◌*◌, ◌≡◌, refl, true, false, none, some, List, [], ◌∷◌, ◌++◌, arith}
use cdp_cache.Base.Int.{ℤ, pos, negsuc, ◌+ℤ◌, ◌-ℤ◌}
use cdp_cache.Base.Text.{Str, codes, str_eq, to_lower, split_byte, trim_space}
use cdp_cache.Base.Assoc.{lookup, insert}
use cdp_cache.Header
use cdp_cache.Header.{Header, canonical_key, copy_headers}
use cdp_cache.Http.{Request, Writer}
use cdp_cache.Rule.{header_rule, matches}
use cdp_cache.Config.{Config, second, get_default_config}
use cdp_cache.Status.{CacheControl, is_given, seconds, judge, get_cache_status}
use cdp_cache.Bucket.{bucket_index, checksum_ieee}
use cdp_cache.Entry.{Entry, new_entry, is_fresh, match_vary, key_with_respect_vary, path_escape}
use cdp_cache.Store as Caches
use cdp_cache.Store.{HttpCache, Slot, bucket_of, find_entry, place, replaced, place_slot, put}
use cdp_cache.Store.Invariant.{IsValid}
use cdp_cache.Response.{BackendOps, new_response, set_body, wait_body, close, finish_close}
use cdp_cache.Handler.{
  opened, should_use_cache, add_status_header, respond, write_body_to, write_public_response,
  digits, with_content_length,
}
use cdp_cache.Handler.Serve.{
  World, State, Reply, served, never, fetched_entry, peer_entry, new_storage, store, serve_cached,
  ask_peers, answer_fetched, serve_upstream, serve_locked, serve_http,
}
use cdp_cache.Handler.Hit.{Delivered, hit_served, stale_served}
use cdp_cache.Handler.Safety.{EndsWithin, serve_http-EndsWithin}
use cdp_cache.Handler.Miss.{Misses, private_passes, miss_then_found}
use cdp_cache.Handler.Peers.{private_peers_hang}

-- A library that reads the age 5 from every header and has nothing against caching.
abbrev five_seconds : CacheControl
five_seconds = record {
  ReqDirectives = Unit {0};
  RespDirectives = Unit {0};
  s_max_age = λ _. negsuc 0;
  max_age = λ _. pos 5;
  parse_response = λ _. some tt;
  parse_request = λ _. some tt;
  cachable_object = λ _. record { out_reasons = []; out_warnings = []; out_err = none };
  parse_time = λ _. none;
}

abbrev memory : BackendOps Str Str
memory = record {
  write = λ b p. (b ++ p, (0, none));
  flush = λ b. b;
  close = λ b. b;
  clean = λ b. none;
  get_reader = λ b. some b;
  length = λ b. 0;
}

-- An upstream that answers with the status and the body "new"; stored bodies read "old".
abbrev pub outside : ℕ → World Str Str
outside code = record {
  cc = five_seconds;
  get_key = λ template req. req.path;
  direct = λ req w. (w, none);
  fetch = λ req. record {
    code = code;
    header_map = [];
    snap_header = [];
    error = none;
    content = codes "new";
  };
  new_backend = λ kind path name expiration. (some [], none);
  ops = memory;
  reading = λ m e. opened 3 (codes "old") none;
  clock = λ m n. pos (100 * second);
  address = λ m. 7;
}

abbrev pub ask : Request
ask = record { method = codes "GET"; path = codes "k"; header = [] }

abbrev pub default : Config
default = get_default_config

abbrev known : ℤ → Entry
known expiration = record {
  ident = 1;
  is_public = true;
  expiration = expiration;
  key = codes "k";
  request = ask;
  code = 200;
  header_map = [];
  snap_header = [];
}

abbrev pub holding : List Entry → State
holding es = record {
  cache = record {
    cache_key_template = [];
    cache_buckets_num = 1;
    entries = ((codes "k", record { live = es; vacated = [] }) ∷ []) ∷ [];
    is_distributed = false;
  };
  tasks = [];
  fetches = 0;
  writer = record { header = []; status = none; body = [] };
}

handler : Unit {0}
unfolding get_cache_status judge get_default_config Header.get Header.set canonical_key lookup
    insert str_eq matches ◌+ℤ◌ ◌-ℤ◌ is_given seconds split_byte trim_space to_lower bucket_index
    checksum_ieee new_entry is_fresh match_vary key_with_respect_vary path_escape bucket_of
    find_entry place replaced place_slot put Caches.get new_response set_body wait_body close
    finish_close should_use_cache add_status_header respond copy_headers write_body_to digits
    fetched_entry peer_entry new_storage store serve_cached ask_peers answer_fetched serve_upstream
    serve_locked serve_http
handler = tt

hit_served_example :
    (v : Writer) × (serve_http
        (outside 200)
        default
        false
        ask
        (holding (known (pos (200 * second)) ∷ []))
      ≡ some (record (holding (known (pos (200 * second)) ∷ [])) { writer = v }, served))
    × Delivered
        (outside 200)
        default
        false
        ask
        (known (pos (200 * second)))
        (codes "old")
        (holding []).writer
        v
unfolding handler
hit_served_example =
    hit_served (outside 200) default false ask (holding (known (pos (200 * second)) ∷ []))
      (known (pos (200 * second))) 3 (codes "old") refl refl refl (λ e. cc) refl refl

-- A request for a stored page: the header that the client gets.
hit_test :
    serve_http (outside 200) default false ask (holding (known (pos (200 * second)) ∷ []))
    ≡ some (
      record (holding (known (pos (200 * second)) ∷ [])) {
        writer = record {
          header =
              (codes "X-Cache-Status", codes "hit" ∷ [])
              ∷ (codes "Content-Length", codes "3" ∷ [])
              ∷ [];
          status = some 200;
          body = codes "old";
        };
      },
      served,
    )
unfolding handler write_public_response with_content_length
hit_test = refl

stale_served_example :
    (v : Writer) × (serve_upstream
        (outside 503)
        default
        false
        ask
        (holding (known (pos second) ∷ []))
      ≡ some (record (holding (known (pos second) ∷ [])) { fetches = 1; writer = v }, served))
    × Delivered
        (outside 503)
        default
        false
        ask
        (known (pos second))
        (codes "old")
        (holding []).writer
        v
unfolding handler
stale_served_example =
    stale_served (outside 503) default false ask (holding (known (pos second) ∷ []))
      (known (pos second)) 3 (codes "old") refl refl refl (λ e. cc) refl refl

pub holding-IsValid : IsValid (holding []).cache
unfolding handler
holding-IsValid = record {
  sized = refl;
  nonzero = omega arith;
  placed = (((tt, tt), ((refl, tt), tt)), tt);
}

serve_http-EndsWithin_example :
    EndsWithin
      (outside 200)
      default
      true
      ask
      (holding [])
      0
      (serve_http (outside 200) default true ask (holding []))
serve_http-EndsWithin_example =
    serve_http-EndsWithin (outside 200) default true ask (holding []) holding-IsValid

-- Only responses with an Etag may be cached.
abbrev tagged : Config
tagged = record default { rule_matchers = header_rule (codes "Etag") (codes "x" ∷ []) ∷ [] }

pub default_config-Misses : Misses (outside 200) default ask (holding [])
unfolding handler
default_config-Misses = record {
  allowed = refl;
  not_found = refl;
  no_failure = refl;
  no_error = refl;
}

tagged_config-Misses : Misses (outside 200) tagged ask (holding [])
unfolding handler
tagged_config-Misses = record {
  allowed = refl;
  not_found = refl;
  no_failure = refl;
  no_error = refl;
}

private_passes_example :
    (v : Writer) × (serve_http (outside 200) tagged false ask (holding [])
      ≡ some (record (holding []) { fetches = 1; writer = v }, served))
    × (v.status ≡ some 200)
    × (v.body ≡ codes "new")
unfolding handler
private_passes_example =
    private_passes (outside 200) tagged ask (holding []) tagged_config-Misses refl (λ e. cc) refl

miss_then_found_example :
    (t : State) × (r : Reply) × (serve_http (outside 200) default false ask (holding [])
      ≡ some (t, r))
    × (t.fetches ≡ 1)
    × (Caches.get t.cache (codes "k") ask false (λ n. pos (101 * second))
        ≡ some (some (fetched_entry (outside 200) default false ask)))
unfolding handler
miss_then_found_example =
    miss_then_found (outside 200) default ask (holding []) (some []) false (λ n. pos (101 * second))
      default_config-Misses holding-IsValid refl refl (λ n. refl)

private_peers_hang_example :
    (t : State) × (serve_http (outside 200) tagged true ask (holding []) ≡ some (t, never))
unfolding handler
private_peers_hang_example =
    private_peers_hang (outside 200) tagged ask (holding []) [] refl refl holding-IsValid refl refl
      (λ e. cc)
