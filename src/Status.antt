-- ===== src/Status.antt =====
-- Whether a response may be cached, and until when: expirationObject,
-- judgeResponseShouldCacheOrNot and getCacheStatus of cache.go.
-- The package cachecontrol is a parameter. A time is the number of nanoseconds since the zero
-- time of Go; `clock n` is what the n-th call of now() within one call of the function returns.
pub mod Public
pub mod Expiry
pub mod Tests
use mathlib.Core.Option
use cdp_cache.Base.{
  ℕ, zero, suc, ◌+◌, ◌-◌, ◌*◌, ◌^◌, Bool, true, false, not, ◌&&◌, ◌||◌, Option, none, some, List,
  [], ◌∷◌, ◌==◌, if◌then◌else◌,
}
use cdp_cache.Base.Int.{ℤ, pos, negsuc, ◌+ℤ◌, ◌-ℤ◌, ltb_ℤ, pos_part, neg_part}
use cdp_cache.Base.Text.{Str, codes, str_eq}
use cdp_cache.Header
use cdp_cache.Header.{Header}
use cdp_cache.Http.{Request}
use cdp_cache.Rule.{RuleMatcher, matches}
use cdp_cache.Config.{Config, second}

-- cacheobject.Object, over the library's types of parsed directives.
pub record Object (Req Resp : Type 0) : Type 0 where
  pub cache_is_private : Bool
  pub resp_directives : Resp
  pub resp_headers : Header
  pub resp_status_code : ℕ
  pub resp_expires_header : ℤ
  pub resp_date_header : ℤ
  pub resp_last_modified_header : ℤ
  pub req_directives : Option Req
  pub req_headers : Header
  pub req_method : Str
  pub now_utc : ℤ

-- What CachableObject writes into ObjectResults.
pub record Verdict : Type 0 where
  pub out_reasons : List ℕ
  pub out_warnings : List ℕ
  pub out_err : Option Str

-- What the program uses of the package cachecontrol and of http.ParseTime.
-- An age of -1 stands for a directive that is absent.
pub record CacheControl : Type 1 where
  pub ReqDirectives : Type 0
  pub RespDirectives : Type 0
  pub s_max_age : RespDirectives → ℤ
  pub max_age : RespDirectives → ℤ
  pub parse_response : Str → Option RespDirectives
  pub parse_request : Str → Option ReqDirectives
  pub cachable_object : Object ReqDirectives RespDirectives → Verdict
  pub parse_time : Str → Option ℤ

-- The zero time, for which IsZero holds.
abbrev pub zero_time : ℤ
zero_time = pos 0

unfoldable pub is_zero : ℤ → Bool
is_zero (pos zero) = true
is_zero (pos (suc n)) = false
is_zero (negsuc n) = false

abbrev max_duration : ℕ
max_duration = 2 ^ 63 - 1

-- Time.Sub saturates at the bounds of a Duration, an int64.
unfoldable pub time_sub : ℤ → ℤ → ℤ
time_sub a b =
    let d = a -ℤ b in
    if ltb_ℤ (pos max_duration) d
    then pos max_duration
    else if ltb_ℤ d (negsuc max_duration)
    then negsuc max_duration
    else d

-- time.Second * time.Duration(age), for an int32.
unfoldable pub seconds : ℤ → ℤ
seconds (pos n) = pos (n * second)
seconds (negsuc n) = negsuc (n * second + (second - 1))

-- age != -1
unfoldable pub is_given : ℤ → Bool
is_given (pos n) = true
is_given (negsuc zero) = false
is_given (negsuc (suc n)) = true

abbrev pub Clock : Type 0
Clock = ℕ → ℤ

-- The results of judgeResponseShouldCacheOrNot, where it returns no error.
pub record Judged (Req Resp : Type 0) : Type 0 where
  pub reasons : List ℕ
  pub expiration : ℤ
  pub warnings : List ℕ
  pub object : Object Req Resp

infixl 5 ◌>>=◌
abbrev ◌>>=◌ {ℓ κ} : {A : Type ℓ} {B : Type κ} → Option A → (A → Option B) → Option B
none >>= f = none
some a >>= f = f a

-- A time that is the zero time where the text was none.
abbrev or_zero : Option ℤ → ℤ
or_zero none = zero_time
or_zero (some t) = t

-- The parsed directives of a request, where there is one.
parse_request_directives {ℓ} : {R : Type ℓ} → (Str → Option R) → Option Request → Option (Option R)
parse_request_directives parse none = some none
parse_request_directives parse (some req) =
    Option.map some (parse (Header.get req.header (codes "Cache-Control")))

request_header : Option Request → Header
request_header none = []
request_header (some req) = req.header

request_method : Option Request → Str
request_method none = []
request_method (some req) = req.method

-- `if rv.OutErr != nil` after CachableObject.
checked : Option Str → Option (Unit {0})
checked none = some tt
checked (some e) = none

-- The loop over the rule matchers of getCacheStatus.
unfoldable pub all_match : List RuleMatcher → Request → ℕ → Header → Bool
all_match [] req code h = true
all_match (rule ∷ rules) req code h = matches rule req code h && all_match rules req code h

abbrev pub is_empty : List ℕ → Bool
is_empty [] = true
is_empty (r ∷ rs) = false

module _ (cc : CacheControl) where
  open cc use {
    ReqDirectives, RespDirectives, s_max_age, max_age, parse_response, parse_request,
    cachable_object, parse_time,
  }

  unfoldable pub expiration_object : Object ReqDirectives RespDirectives → ℤ
  expiration_object obj =
      if is_given (s_max_age obj.resp_directives) && not obj.cache_is_private
      then obj.now_utc +ℤ seconds (s_max_age obj.resp_directives)
      else if is_given (max_age obj.resp_directives)
      then obj.now_utc +ℤ seconds (max_age obj.resp_directives)
      else if not (is_zero obj.resp_expires_header)
      then obj.now_utc
        +ℤ time_sub obj.resp_expires_header
            (if is_zero obj.resp_date_header then obj.now_utc else obj.resp_date_header)
      else obj.now_utc

  -- A header that must parse as a time if it is there; an absent one is the zero time.
  strict_time : Str → Option ℤ
  strict_time [] = some zero_time
  strict_time (c ∷ s) = parse_time (c ∷ s)

  -- `Expires: 0` and other texts that are no time count as the zero time.
  lenient_time : Str → ℤ
  lenient_time [] = zero_time
  lenient_time (c ∷ s) = or_zero (parse_time (c ∷ s))

  -- `none` is an error; the argument `now` is what the one call of now() returns.
  unfoldable pub judge :
      Option Request → ℕ → Header → Bool → ℤ → Option (Judged ReqDirectives RespDirectives)
  unfolding expiration_object strict_time lenient_time parse_request_directives request_header
      request_method checked
  judge req status_code resp_headers private_cache now = do
    resp_dir ← parse_response (Header.get resp_headers (codes "Cache-Control"))
    req_dir ← parse_request_directives parse_request req
    date_header ← strict_time (Header.get resp_headers (codes "Date"))
    last_modified_header ← strict_time (Header.get resp_headers (codes "Last-Modified"))
    let obj : Object ReqDirectives RespDirectives = record {
      cache_is_private = private_cache;
      resp_directives = resp_dir;
      resp_headers = resp_headers;
      resp_status_code = status_code;
      resp_expires_header = lenient_time (Header.get resp_headers (codes "Expires"));
      resp_date_header = date_header;
      resp_last_modified_header = last_modified_header;
      req_directives = req_dir;
      req_headers = request_header req;
      req_method = request_method req;
      now_utc = now;
    }
    let rv = cachable_object obj
    _ ← checked rv.out_err
    some (record {
      reasons = rv.out_reasons;
      expiration = expiration_object obj;
      warnings = rv.out_warnings;
      object = obj;
    })

  -- The checks of getCacheStatus after the judgement; the first call of now() is behind it.
  after_judgement :
      Option (Judged ReqDirectives RespDirectives)
      → Request
      → ℕ
      → Header
      → Config
      → Clock
      → Bool × ℤ
  unfolding all_match
  after_judgement none req code snap config clock = (false, zero_time)
  after_judgement (some j) req code snap config clock =
      if not (is_empty j.reasons)
      then (false, clock 1 +ℤ config.lock_timeout)
      else if str_eq (Header.get snap (codes "Vary")) (codes "*")
      then (false, clock 1 +ℤ config.lock_timeout)
      else if not (all_match config.rule_matchers req code snap)
      then (false, clock 1)
      else if ltb_ℤ (j.expiration -ℤ pos second) (clock 1)
      then (true, clock 2 +ℤ config.default_max_age)
      else (true, j.expiration)

  -- getCacheStatus, by the status and the frozen header of the response.
  unfoldable pub get_cache_status : Request → ℕ → Header → Config → Clock → Bool × ℤ
  unfolding after_judgement
  get_cache_status req code snap config clock =
      if (code == 206) || not (str_eq (Header.get snap (codes "Content-Range")) [])
      then (false, clock 0 +ℤ config.lock_timeout)
      else if code == 304
      then (false, clock 0)
      else after_judgement (judge (some req) code snap false (clock 0)) req code snap config clock
