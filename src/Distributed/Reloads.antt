-- ===== src/Distributed/Reloads.antt =====
-- Reloads of the configuration: provisionDistributed of handler.go, again and again.
use cdp_cache.Base.{
  ℕ, zero, suc, ◌+◌, ◌*◌, ◌≡◌, refl, sym, ap, ◌∙◌, inl, Option, none, List, [], ◌∷◌, ◌++◌, arith,
  append_assoc, append-nil, subst, length, length-append,
}
use cdp_cache.Base.Text.{Str, codes}
use cdp_cache.Distributed.{
  Watches, WatchHandler, register_watch_handler, start_watches, start_or_stop, watching,
  register_watch, register_watches, get_checks_params, get_keys_params, get_key_prefix_params,
  keyprefix, checks, config_changed, delete_key,
}
use cdp_cache.Distributed.Setup.{
  Agent, ConsulConfig, ConsulService, config_or_default, provision_consul, provision_distributed,
}

-- An agent that answers every call without an error, at an address.
pub record Answers (agent : Agent) : Type 0 where
  pub ip : Str
  pub at_ip : agent.ip_addr ≡ inl ip
  pub connects : (addr token : Str) → agent.new_client addr token ≡ none
  pub registers : (r : _) → agent.service_register r ≡ none
  pub parses : (p : List (Str × Str)) → agent.parse p ≡ none

start_watches-all :
    (parse : List (Str × Str) → Option Str)
    → ((p : List (Str × Str)) → parse p ≡ none)
    → (hs : List WatchHandler) (w : Watches)
    → start_watches parse hs w ≡ (record w { running = w.running ++ hs }, none)
unfolding start_watches register_watch
start_watches-all parse ok [] w =
    ap (λ r. (record w { running = r }, none)) (sym (append-nil w.running))
start_watches-all parse ok (h ∷ hs) w =
    ap (λ o. let (v, e) = watching o h w in start_or_stop e v (start_watches parse hs v))
      (ok h.params)
    ∙ start_watches-all parse ok hs (record w { running = w.running ++ h ∷ [] })
    ∙ ap (λ r. (record w { running = r }, none)) (append_assoc w.running (h ∷ []) hs)

-- The handlers that RegisterWatches adds.
abbrev own_handlers : Str → List WatchHandler
own_handlers name =
    record { params = get_checks_params name; callback = checks }
    ∷ record { params = get_keys_params (codes "caddy_config"); callback = config_changed }
    ∷ []

abbrev purge_handler : WatchHandler
purge_handler = record { params = get_key_prefix_params keyprefix; callback = delete_key }

abbrev started : List WatchHandler → Watches → Watches
started hs w = record { handlers = hs; running = w.running ++ hs }

module _ (agent : Agent) (a : Answers agent) (uid : Str) where
  provision_consul-started :
      (s : ConsulService) (w : Watches)
      → (provision_consul agent uid s w).1
        ≡ (started (w.handlers ++ own_handlers (config_or_default s.config).service_name) w, none)
  unfolding provision_consul register_watches
  provision_consul-started s w =
      let c = config_or_default s.config in
      rw (a.connects c.addr c.token, a.at_ip, a.registers _)
        (start_watches-all agent.parse a.parses (w.handlers ++ own_handlers c.service_name) _)

  provision_distributed-started :
      (s : ConsulService) (w : Watches)
      → (provision_distributed agent uid s w).1 ≡ (
        started
            ((w.handlers ++ purge_handler ∷ [])
              ++ own_handlers (config_or_default s.config).service_name)
            w,
        none,
      )
  unfolding provision_distributed register_watch_handler
  provision_distributed-started s w =
      provision_consul-started s (register_watch_handler purge_handler w)

-- n loads of a configuration, each by a new ConsulService; the package variable stays.
unfoldable pub reloads : Agent → Str → Option ConsulConfig → ℕ → Watches → Watches
reloads agent uid c zero w = w
reloads agent uid c (suc n) w =
    (provision_distributed agent uid (record { config = c; service_ids = [] })
      (reloads agent uid c n w)).1.0

-- One more load: three handlers more, and all of them are started.
reloads-suc :
    (agent : Agent) (uid : Str) (c : Option ConsulConfig) (n : ℕ) (w : Watches)
    → Answers agent
    → let before = reloads agent uid c n w in
      let after = reloads agent uid c (suc n) w in
      (length after.handlers ≡ 3 + length before.handlers)
      × (length after.running ≡ length before.running + length after.handlers)
unfolding reloads
reloads-suc agent uid c n w a =
    let before = reloads agent uid c n w in
    let own = own_handlers (config_or_default c).service_name in
    let hs = (before.handlers ++ purge_handler ∷ []) ++ own in
    subst
      (λ (x : Watches × Option Str).
        (length x.0.handlers ≡ 3 + length before.handlers)
        × (length x.0.running ≡ length before.running + length x.0.handlers))
      (sym (
        provision_distributed-started agent a uid (record { config = c; service_ids = [] }) before))
      (
        omega (
          arith,
          length-append (before.handlers ++ purge_handler ∷ []) own,
          length-append before.handlers (purge_handler ∷ []),
        ),
        length-append before.running hs,
      )

twice_more :
    (n h r h' : ℕ) {r' : ℕ}
    → h ≡ 3 * n
    → 2 * r ≡ 3 * (n * suc n)
    → h' ≡ 3 + h
    → r' ≡ r + h'
    → 2 * r' ≡ 3 * (suc n * suc (suc n))
twice_more n h r h' e f e' f' = grind arith

-- The package variable of the handlers is not reset by a reload, and no watch is stopped: after n
-- loads of a configuration with `distributed`, to which consul answers without an error, there are
-- 3 n handlers, and 3 n (n + 1) / 2 watches run.
pub watches_pile_up :
    (agent : Agent) (uid : Str) (c : Option ConsulConfig) (n : ℕ)
    → Answers agent
    → let w = reloads agent uid c n (record { handlers = []; running = [] }) in
      (length w.handlers ≡ 3 * n) × (2 * length w.running ≡ 3 * (n * suc n))
unfolding reloads
watches_pile_up agent uid c zero a = (refl, refl)
watches_pile_up agent uid c (suc n) a =
    let (h, r) = watches_pile_up agent uid c n a in
    let (h', r') = reloads-suc agent uid c n (record { handlers = []; running = [] }) a in
    (omega (arith, h, h'), twice_more n _ _ _ h r h' r')
