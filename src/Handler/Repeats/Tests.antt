-- ===== src/Handler/Repeats/Tests.antt =====
-- A miss with two hits after it.
use cdp_cache.Base.{◌*◌, ◌≡◌, refl, false, none, some, List, [], ◌∷◌}
use cdp_cache.Base.Int.{pos, ◌+ℤ◌, ◌-ℤ◌}
use cdp_cache.Base.Text.{Str, codes, str_eq, to_lower, split_byte, trim_space}
use cdp_cache.Base.Assoc.{lookup, insert}
use cdp_cache.Header
use cdp_cache.Header.{Header, canonical_key, copy_headers}
use cdp_cache.Http.{Writer}
use cdp_cache.Rule.{matches}
use cdp_cache.Config.{second, get_default_config}
use cdp_cache.Status.{is_given, seconds, judge, get_cache_status}
use cdp_cache.Bucket.{bucket_index, checksum_ieee}
use cdp_cache.Entry.{new_entry, is_fresh, match_vary, key_with_respect_vary, path_escape}
use cdp_cache.Store as Caches
use cdp_cache.Store.{HttpCache, Slot, bucket_of, find_entry, place, replaced, place_slot, put}
use cdp_cache.Response.{new_response, set_body, wait_body, close, finish_close}
use cdp_cache.Handler.{should_use_cache, add_status_header, respond, write_body_to, digits}
use cdp_cache.Handler.Serve.{
  State, Reply, fetched_entry, peer_entry, new_storage, store, serve_cached, ask_peers,
  answer_fetched, serve_upstream, serve_locked, serve_http,
}
use cdp_cache.Handler.Repeats.{Visit, visits, Finds, AllDelivered, one_fetch}
use cdp_cache.Handler.Tests.{outside, ask, default, holding, holding-IsValid, default_config-Misses}

handler : Unit {0}
unfolding get_cache_status judge get_default_config Header.get Header.set canonical_key lookup
    insert str_eq matches ◌+ℤ◌ ◌-ℤ◌ is_given seconds split_byte trim_space to_lower bucket_index
    checksum_ieee new_entry is_fresh match_vary key_with_respect_vary path_escape bucket_of
    find_entry place replaced place_slot put Caches.get new_response set_body wait_body close
    finish_close should_use_cache add_status_header respond copy_headers write_body_to digits
    fetched_entry peer_entry new_storage store serve_cached ask_peers answer_fetched serve_upstream
    serve_locked serve_http
handler = tt

-- Two more calls, a second after the first.
abbrev again : Visit Str Str
again = record {
  world = record (outside 200) { clock = λ m n. pos (101 * second) };
  writer = record { header = []; status = none; body = [] };
}

again-Finds :
    Finds default ask
      (fetched_entry (outside 200) default false ask)
      (codes "k")
      (codes "old")
      again
unfolding handler
again-Finds = record {
  same_key = refl;
  fresh = λ n. refl;
  size = 3;
  readable = refl;
  unsent = refl;
}

one_fetch_example :
    (t : State) × (r : Reply) × (u : State) × (answers : List (Writer × Reply)) × (serve_http
        (outside 200)
        default
        false
        ask
        (holding [])
      ≡ some (t, r))
    × (visits default ask t (again ∷ again ∷ []) ≡ some (u, answers))
    × (u.fetches ≡ 1)
    × AllDelivered default ask
        (fetched_entry (outside 200) default false ask)
        (codes "old")
        (again ∷ again ∷ [])
        answers
unfolding handler
one_fetch_example =
    one_fetch default ask (outside 200) (holding []) (some []) (codes "old") (again ∷ again ∷ [])
      default_config-Misses holding-IsValid refl refl (λ e. cc) (again-Finds, (again-Finds, tt))
