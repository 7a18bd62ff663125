-- ===== src/Distributed/Setup.antt =====
-- The configuration and the provisioning of extends/distributed, and provisionDistributed of
-- handler.go.
-- Parameters: the agent of consul, with the error of each call, and watch.Parse.
use cdp_cache.Base.{◌⊎◌, inl, inr, Option, none, some, List, [], ◌∷◌, ◌++◌, if◌then◌else◌}
use cdp_cache.Base.Text.{Str, codes, str_eq}
use cdp_cache.Config.Caddyfile.{Segment}
use cdp_cache.Subdirectives.{Parsed, unmarshal}
use cdp_cache.Distributed.{
  gen_service_id, Watches, delete_key, register_watch_handler, register_watches,
  get_key_prefix_params, keyprefix, http_address,
}

pub record ConsulConfig : Type 0 where
  pub service_name : Str
  pub addr : Str
  pub health_url : Str
  pub token : Str

-- getDefaultConfig
abbrev pub default_consul_config : ConsulConfig
default_consul_config = record {
  service_name = [];
  addr = codes "localhost:8500";
  health_url = [];
  token = [];
}

-- The switch of UnmarshalCaddyfile.
unfoldable pub set_consul : Str → ConsulConfig → Option (Str → ConsulConfig)
set_consul parameter c =
    if str_eq parameter (codes "addr")
    then some (λ a. record c { addr = a })
    else if str_eq parameter (codes "service_name")
    then some (λ a. record c { service_name = a })
    else if str_eq parameter (codes "health_check")
    then some (λ a. record c { health_url = a })
    else if str_eq parameter (codes "token")
    then some (λ a. record c { token = a })
    else none

-- UnmarshalCaddyfile
unfoldable pub unmarshal_consul : List Segment → Parsed ConsulConfig
unmarshal_consul segments = unmarshal set_consul segments default_consul_config

-- The registration of a service, as far as it varies.
pub record Registration : Type 0 where
  pub id : Str
  pub name : Str
  pub address : Str
  pub http : Str

-- What provisioning asks of consul; `some` is an error, and `ip_addr` has the text of the error on the
-- right.
pub record Agent : Type 0 where
  pub new_client : Str → Str → Option Str
  pub ip_addr : Str ⊎ Str
  pub service_register : Registration → Option Str
  pub parse : List (Str × Str) → Option Str

pub record ConsulService : Type 0 where
  pub config : Option ConsulConfig
  pub service_ids : List Str

abbrev pub config_or_default : Option ConsulConfig → ConsulConfig
config_or_default none = default_consul_config
config_or_default (some c) = c

-- A service, the watches, and the error.
abbrev pub Provisioned : Type 0
Provisioned = ConsulService × (Watches × Option Str)

abbrev stop_if : Option Str → Provisioned → Provisioned → Provisioned
stop_if none stopped rest = rest
stop_if (some e) (s, (w, _)) rest = (s, (w, some e))

abbrev register : Agent → ConsulConfig → Str → ConsulService → Watches → Str → Provisioned
register agent c uid s w ip =
    let id = gen_service_id c.service_name ip uid in
    let s' : ConsulService = record s { service_ids = s.service_ids ++ id ∷ [] } in
    let reg : Registration = record {
      id = id;
      name = c.service_name;
      address = ip;
      http = http_address ip ++ c.health_url;
    } in
    stop_if (agent.service_register reg) (s', (w, none))
      (s', register_watches agent.parse c.service_name w)

abbrev with_ip : Provisioned → (Str → Provisioned) → Str ⊎ Str → Provisioned
with_ip (s, (w, _)) rest (inl ip) = rest ip
with_ip (s, (w, _)) rest (inr e) = (s, (w, some e))

-- Provision, with the UUID that genServiceID draws.
unfoldable pub provision_consul : Agent → Str → ConsulService → Watches → Provisioned
provision_consul agent uid s w =
    let c = config_or_default s.config in
    let s' : ConsulService = record s { config = some c } in
    stop_if (agent.new_client c.addr c.token) (s', (w, none))
      (with_ip (s', (w, none)) (λ ip. register agent c uid s' w ip) agent.ip_addr)

-- provisionDistributed with DistributedRaw set: the watch of the deleted keys is registered first.
unfoldable pub provision_distributed : Agent → Str → ConsulService → Watches → Provisioned
unfolding provision_consul
provision_distributed agent uid s w = provision_consul agent uid s (
    register_watch_handler
      (record { params = get_key_prefix_params keyprefix; callback = delete_key }) w)
