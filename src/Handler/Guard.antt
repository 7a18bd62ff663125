-- ===== src/Handler/Guard.antt =====
-- shouldUseCache and isWebSocket of response.go, by what they ask for.
use cdp_cache.Base.{◌≡◌, ◌↔◌, ◌⊎◌, inl, inr, true, List, [], ◌∷◌, arith, Bool-cases}
use cdp_cache.Base.Text.{Str, codes, str_eq_iff, to_lower}
use cdp_cache.Header as Headers
use cdp_cache.Header.{Header}
use cdp_cache.Http.{Request}
use cdp_cache.Config.{Config}
use cdp_cache.Handler.{match_method, any_upgrade, is_web_socket, should_use_cache}

-- A member of a list that equals the text, after a function.
abbrev pub Has : (Str → Str) → Str → List Str → Type 0
Has f s [] = ⊥
Has f s (x ∷ xs) = (f x ≡ s) ⊎ Has f s xs

abbrev same : Str → Str
same s = s

match_method_iff : (ms : List Str) (s : Str) → (match_method ms s ≡ true) ↔ Has same s ms
unfolding match_method
match_method_iff [] s = ground arith
match_method_iff (m ∷ ms) s = ground (arith, str_eq_iff m s, match_method_iff ms s)

any_upgrade_iff : (vs : List Str) → (any_upgrade vs ≡ true) ↔ Has to_lower (codes "upgrade") vs
unfolding any_upgrade
any_upgrade_iff [] = ground arith
any_upgrade_iff (v ∷ vs) =
    ground (arith, str_eq_iff (to_lower v) (codes "upgrade"), any_upgrade_iff vs)

-- A request for a websocket: `Upgrade: websocket` and `upgrade` among the values of Connection,
-- in any case.
pub record AsksForWebSocket (h : Header) : Type 0 where
  pub upgrade : to_lower (Headers.get h (codes "Upgrade")) ≡ codes "websocket"
  pub connection : Has to_lower (codes "upgrade") (Headers.values h (codes "Connection"))

pub is_web_socket_iff : (h : Header) → (is_web_socket h ≡ true) ↔ AsksForWebSocket h
unfolding is_web_socket
is_web_socket_iff h = (to, back)
  where
    asked : Str
    asked = to_lower (Headers.get h (codes "Upgrade"))

    to : is_web_socket h ≡ true → AsksForWebSocket h
    to p = record {
      upgrade = ground (arith, p, str_eq_iff asked (codes "websocket"));
      connection = (any_upgrade_iff _).0 (ground (arith, p, str_eq_iff asked (codes "websocket")));
    }

    back : AsksForWebSocket h → is_web_socket h ≡ true
    back a = ground (
      arith,
      str_eq_iff asked (codes "websocket"),
      a.upgrade,
      (any_upgrade_iff (Headers.values h (codes "Connection"))).1 a.connection,
    )

-- A request may use the cache.
pub record MayUseCache (req : Request) (config : Config) : Type 0 where
  pub method : Has same req.method config.match_methods
  pub no_range : Headers.get req.header (codes "range") ≡ []
  pub no_web_socket : ¬ AsksForWebSocket req.header

-- shouldUseCache accepts exactly the requests whose method is configured, that have no Range header
-- and that do not ask for a websocket.
pub should_use_cache_iff :
    (req : Request) (config : Config)
    → (should_use_cache req config ≡ true) ↔ MayUseCache req config
unfolding should_use_cache
should_use_cache_iff req config = (to, back)
  where
    range : Str
    range = Headers.get req.header (codes "range")

    to : should_use_cache req config ≡ true → MayUseCache req config
    to p = record {
      method = (match_method_iff _ _).0 (ground (arith, p));
      no_range = ground (arith, p, str_eq_iff range []);
      no_web_socket = λ a. ground (arith, p, (is_web_socket_iff req.header).1 a);
    }

    back : MayUseCache req config → should_use_cache req config ≡ true
    back a = elim (Bool-cases (is_web_socket req.header)) [
      | inl asks ↦ absurd (a.no_web_socket ((is_web_socket_iff req.header).0 asks))
      | inr plain ↦ ground (
        arith,
        plain,
        str_eq_iff range [],
        a.no_range,
        (match_method_iff config.match_methods req.method).1 a.method,
      )
    ]
