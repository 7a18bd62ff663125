-- ===== src/Influx.antt =====
-- The log writer of extends/influxlog.
-- Parameters: time.Parse and time.Now, json.Unmarshal into a map, and the client of influx, which
-- takes a point.
pub mod Points
pub mod Clients
use cdp_cache.Base.{ℕ, Option, none, some, List, [], ◌∷◌, ◌++◌, length, if◌then◌else◌}
use cdp_cache.Base.Text.{Str, codes, str_eq, split_byte, pieces_list}
use cdp_cache.Base.Assoc.{insert}
use cdp_cache.Config.Caddyfile.{Segment}
use cdp_cache.Subdirectives.{Parsed, unmarshal}

pub record InfluxConfig : Type 0 where
  pub addr : Str
  pub token : Str
  pub organization : Str
  pub bucket : Str

-- getDefaultConfig
abbrev pub default_influx_config : InfluxConfig
default_influx_config = record {
  addr = codes "localhost:9999";
  token = [];
  organization = [];
  bucket = [];
}

-- The switch of UnmarshalCaddyfile.
unfoldable pub set_influx : Str → InfluxConfig → Option (Str → InfluxConfig)
set_influx parameter c =
    if str_eq parameter (codes "addr")
    then some (λ a. record c { addr = a })
    else if str_eq parameter (codes "token")
    then some (λ a. record c { token = a })
    else if str_eq parameter (codes "organization")
    then some (λ a. record c { organization = a })
    else if str_eq parameter (codes "bucket")
    then some (λ a. record c { bucket = a })
    else none

-- UnmarshalCaddyfile
unfoldable pub unmarshal_influx : List Segment → Parsed InfluxConfig
unmarshal_influx segments = unmarshal set_influx segments default_influx_config

-- WriterKey
unfoldable pub writer_key : InfluxConfig → Str
writer_key c = codes "influxlog" ++ c.addr

-- A point of the measurement syslog; it has no tags.
pub record Point (T V : Type 0) : Type 0 where
  pub time : T
  pub fields : List (Str × V)

-- `text` is a string as a field, `zero_time` the time of a variable that is not set.
pub record LogTools (T V : Type 0) : Type 0 where
  pub parse_time : Str → Option T
  pub now : T
  pub zero_time : T
  pub decode : Str → Option (List (Str × V))
  pub text : Str → V

-- The point that is written, and the number and the error that are returned.
abbrev pub Written : Type 0 → Type 0 → Type 0
Written T V = Option (Point T V) × (ℕ × Option Str)

abbrev pub or_now : {T : Type 0} → T → Option T → T
or_now now none = now
or_now now (some t) = t

abbrev pub write_fields :
    {T V : Type 0} → LogTools T V → ℕ → T → Str → Str → Option (List (Str × V)) → Written T V
write_fields tools n ts action messages none = (none, (0, some (codes "json")))
write_fields tools n ts action messages (some fields) =
    let message = tools.text (action ++ (codes " " ++ messages)) in
    (some (record { time = ts; fields = insert (codes "message") message fields }), (n, none))

-- The point of a line's tokens; any number but five leaves the fields empty.
unfoldable pub write_tokens : {T V : Type 0} → LogTools T V → ℕ → List Str → Written T V
write_tokens tools n (time ∷ level ∷ part ∷ action ∷ messages ∷ []) =
    write_fields tools n (or_now tools.now (tools.parse_time time)) action messages
      (tools.decode messages)
write_tokens tools n [] = (some (record { time = tools.zero_time; fields = [] }), (n, none))
write_tokens tools n (a ∷ []) = (some (record { time = tools.zero_time; fields = [] }), (n, none))
write_tokens tools n (a ∷ b ∷ []) =
    (some (record { time = tools.zero_time; fields = [] }), (n, none))
write_tokens tools n (a ∷ b ∷ c ∷ []) =
    (some (record { time = tools.zero_time; fields = [] }), (n, none))
write_tokens tools n (a ∷ b ∷ c ∷ d ∷ []) =
    (some (record { time = tools.zero_time; fields = [] }), (n, none))
write_tokens tools n (a ∷ b ∷ c ∷ d ∷ e ∷ f ∷ tokens) =
    (some (record { time = tools.zero_time; fields = [] }), (n, none))

-- Write of influxWriteCloser
unfoldable pub write : {T V : Type 0} → LogTools T V → Str → Written T V
unfolding write_tokens
write tools content = write_tokens tools (length content) (pieces_list (split_byte content 9))
