-- ===== src/Distributed/Tests.antt =====
-- The distributed cache at concrete services, pairs and agents.
use cdp_cache.Base.{◌*◌, ◌≡◌, ◌↔◌, refl, true, false, none, some, List, [], ◌∷◌, map, length, inl}
use cdp_cache.Base.Text.{split_byte, Str, codes, str_eq, contains_byte}
use cdp_cache.Status.{Clock}
use cdp_cache.Store.{HttpCache}
use cdp_cache.Store.Cleaning.{Outside, leads}
use cdp_cache.Entry.{Entry}
use cdp_cache.Base.Int.{pos}
use cdp_cache.Distributed.{
  handle_checks, http_address, get_ip_from_service_id, gen_service_id, Service, contains, get_peers,
  lock_key, original_key, handle_delete_key,
}
use cdp_cache.Distributed.Ids.{Registered, check_of}
use cdp_cache.Distributed.Peers.{is_advertised, Distinct, peers_are_the_addresses}
use cdp_cache.Distributed.Deletes.{
  BeginsOutside, Job, published, delete_jobs, key_recovered_iff, purges_reach_other_nodes,
}
use cdp_cache.Distributed.Setup.{Agent, default_consul_config}
use cdp_cache.Distributed.Reloads.{Answers, reloads, watches_pile_up}

abbrev up : Registered
up = record {
  name = codes "cache";
  ip = codes "10.0.0.2";
  uid = codes "u1";
  status = codes "passing";
}

abbrev down : Registered
down = record {
  name = codes "cache";
  ip = codes "10.0.0.3";
  uid = codes "u2";
  status = codes "critical";
}

handle_checks_test :
    handle_checks (map check_of (up ∷ down ∷ [])) ≡ some (http_address (codes "10.0.0.2") ∷ [])
unfolding handle_checks get_ip_from_service_id gen_service_id str_eq split_byte
handle_checks_test = refl

abbrev two_services : List Service
two_services =
    record { service = codes "cache"; address = codes "10.0.0.2" }
    ∷ record { service = codes "other"; address = codes "10.0.0.9" }
    ∷ record { service = codes "cache"; address = codes "10.0.0.2" }
    ∷ []

peers_are_the_addresses_example :
    Distinct (get_peers (codes "cache") two_services)
    × ((a : Str)
        → contains a (get_peers (codes "cache") two_services)
          ≡ is_advertised (codes "cache") a two_services)
peers_are_the_addresses_example = peers_are_the_addresses (codes "cache") two_services

key_recovered_iff_example :
    (original_key (lock_key (codes "GET localhost/")) ≡ codes "GET localhost/")
    ↔ BeginsOutside (codes "GET localhost/")
key_recovered_iff_example = key_recovered_iff (codes "GET localhost/")

abbrev agent : Agent
agent = record {
  new_client = λ addr token. none;
  ip_addr = inl (codes "10.0.0.1");
  service_register = λ r. none;
  parse = λ p. none;
}

agent-Answers : Answers agent
agent-Answers = record {
  ip = codes "10.0.0.1";
  at_ip = refl;
  connects = λ addr token. refl;
  registers = λ r. refl;
  parses = λ p. refl;
}

watches_pile_up_example :
    let w =
      reloads agent
        (codes "u")
        (some default_consul_config)
        2
        (record { handlers = []; running = [] }) in
    (length w.handlers ≡ 6) × (2 * length w.running ≡ 18)
watches_pile_up_example =
    watches_pile_up agent (codes "u") (some default_consul_config) 2 agent-Answers

abbrev calm : Outside
calm = record { clean_error = λ _. none; new_lock_error = λ _. none; lock_answer = λ _. leads }

abbrev early : Str → Clock
early k n = pos 1

abbrev page : Entry
page = record {
  ident = 1;
  is_public = true;
  expiration = pos 9;
  key = codes "GET localhost/";
  request = record { method = codes "GET"; path = codes "/"; header = [] };
  code = 200;
  header_map = [];
  snap_header = [];
}

abbrev holding : HttpCache
holding = record {
  cache_key_template = [];
  cache_buckets_num = 1;
  entries = ((page.key, record { live = page ∷ []; vacated = [] }) ∷ []) ∷ [];
  is_distributed = false;
}

-- One purge of the page by another node, and one of its own.
abbrev jobs : List Job
jobs =
    record { key = page.key; ip = codes "10.0.0.2"; session = codes "s" }
    ∷ record { key = page.key; ip = codes "10.0.0.1"; session = codes "t" }
    ∷ []

purges_reach_other_nodes_example :
    handle_delete_key calm early (codes "10.0.0.1") (map published jobs) holding
    ≡ delete_jobs calm early (codes "10.0.0.1") jobs holding
unfolding str_eq contains_byte
purges_reach_other_nodes_example =
    purges_reach_other_nodes calm early (codes "10.0.0.1") jobs holding
      ((refl, refl), ((refl, refl), tt))
