-- ===== src/Distributed/Ids.antt =====
-- genServiceID, getIPFromServiceID and handleChecks of extends/distributed/register.go together.
use cdp_cache.Base.{
  ◌≡◌, refl, some, List, [], ◌∷◌, ◌++◌, map, All, Bool-cases, inl, inr, if◌then◌else◌,
}
use cdp_cache.Base.Text.{Str, codes, str_eq}
use cdp_cache.Base.Split.{Lacks, split_byte-at}
use cdp_cache.Distributed.{
  gen_service_id, get_ip_from_service_id, HealthCheck, handle_checks, http_address,
}

pub get_ip-gen_service_id :
    (name ip uid : Str)
    → Lacks 58 name
    → Lacks 58 ip
    → get_ip_from_service_id (gen_service_id name ip uid) ≡ some ip
unfolding gen_service_id get_ip_from_service_id
get_ip-gen_service_id name ip uid n i =
    rw (split_byte-at name (ip ++ (codes ":" ++ uid)) 58 n, split_byte-at ip uid 58 i) refl

-- A service that Provision has registered, and the state of its health check.
pub record Registered : Type 0 where
  pub name : Str
  pub ip : Str
  pub uid : Str
  pub status : Str

abbrev pub check_of : Registered → HealthCheck
check_of r = record { status = r.status; service_id = gen_service_id r.name r.ip r.uid }

abbrev pub passing_addresses : List Registered → List Str
passing_addresses [] = []
passing_addresses (r ∷ rs) =
    let rest = passing_addresses rs in
    if str_eq r.status (codes "passing") then http_address r.ip ∷ rest else rest

abbrev pub HasNoColon : Registered → Type 0
HasNoColon r = Lacks 58 r.name × Lacks 58 r.ip

-- If the names of the services and their addresses are without a colon, the peers of the group cache
-- are the addresses of the services whose check passes, one for each of them and in their order,
-- and no check makes the callback panic.
pub peers_are_passing_services :
    (rs : List Registered)
    → All HasNoColon rs
    → handle_checks (map check_of rs) ≡ some (passing_addresses rs)
unfolding handle_checks
peers_are_passing_services [] a = refl
peers_are_passing_services (r ∷ rs) ((n, i), a) =
    elim (Bool-cases (str_eq r.status (codes "passing"))) [
      | inl p ↦
          rw (p, get_ip-gen_service_id r.name r.ip r.uid n i, peers_are_passing_services rs a) refl
      | inr p ↦ rw p (peers_are_passing_services rs a)
    ]
