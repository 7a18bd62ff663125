-- ===== src/Response.antt =====
-- Response of response.go: the buffer between the goroutine that runs the upstream and the one that
-- answers the client. Each channel has room for one value: it is modelled by the number of values
-- that it holds. A method that waits on a channel ends in `blocked`, with the state it waits in; a
-- call of a method of a nil backend ends in `panicked`.
-- The storage is a parameter, given by the methods of the interface Backend.
pub mod Freeze
pub mod Fetch
pub mod Tests
use mathlib.Core.Option
use cdp_cache.Base.{
  ℕ, zero, suc, Bool, true, false, not, ◌&&◌, ◌||◌, Option, none, some, List, [], ◌∷◌, ◌==◌,
  if◌then◌else◌, take,
}
use cdp_cache.Base.Text.{Str, codes, str_eq}
use cdp_cache.Base.Assoc.{lookup}
use cdp_cache.Header as Headers
use cdp_cache.Header.{Header, copy_headers}

-- What the program calls of a backend in the state B; a write and a read may fail.
pub record BackendOps (B Reader : Type 0) : Type 0 where
  pub write : B → Str → B × (ℕ × Option Str)
  pub flush : B → B
  pub close : B → B
  pub clean : B → Option Str
  pub get_reader : B → Option Reader
  pub length : B → ℕ

pub record Response (B : Type 0) : Type 0 where
  pub code : ℕ
  pub header_map : Header
  pub body : Option B
  pub snap_header : Header
  pub wrote_header : Bool
  pub body_complete : Bool
  pub is_first_byte_written : Bool
  pub body_chan : ℕ
  pub body_complete_chan : ℕ
  pub closed_chan : ℕ
  pub headers_chan : ℕ

pub data Outcome (B A : Type 0) : Type 0 where
  done : Response B → A → Outcome B A
  blocked : Response B → Outcome B A
  panicked : Outcome B A

abbrev pub M : Type 0 → Type 0 → Type 0
M B A = Response B → Outcome B A

abbrev pub and_then : {B A C : Type 0} → Outcome B A → (A → M B C) → Outcome B C
and_then (done s a) f = f a s
and_then (blocked s) f = blocked s
and_then panicked f = panicked

infixl 5 ◌>>=◌ ◌>>◌
abbrev pub ◌>>=◌ : {B A C : Type 0} → M B A → (A → M B C) → M B C
◌>>=◌ m f r = and_then (m r) f

abbrev pub ◌>>◌ : {B C : Type 0} → M B (Unit {0}) → M B C → M B C
m >> k = m >>= λ _. k

-- The frozen copy that WriteHeader takes.
unfoldable pub snapshot : Header → Header
snapshot h = Headers.del (copy_headers h []) (codes "server")

abbrev has_key : Option (List Str) → Bool
has_key none = false
has_key (some vs) = true

-- The part of writeHeader(b, "") that sets the Content-Type, with http.DetectContentType as an
-- argument.
unfoldable pub with_content_type : (Str → Str) → Str → Header → Header
with_content_type detect b h =
    if has_key (lookup (codes "Content-Type") h)
      || not (str_eq (Headers.get h (codes "Transfer-Encoding")) [])
    then h
    else Headers.set h (codes "Content-Type") (detect (take 512 b))

module _ {B : Type 0} where
  -- A send into a channel with room for one value, and a receive.
  abbrev send_headers : M B (Unit {0})
  send_headers r =
      if r.headers_chan == 0 then done (record r { headers_chan = 1 }) tt else blocked r

  abbrev receive_headers : M B (Unit {0})
  receive_headers r =
      if r.headers_chan == 0 then blocked r else done (record r { headers_chan = 0 }) tt

  abbrev send_body : M B (Unit {0})
  send_body r = if r.body_chan == 0 then done (record r { body_chan = 1 }) tt else blocked r

  abbrev pub receive_body : M B (Unit {0})
  receive_body r = if r.body_chan == 0 then blocked r else done (record r { body_chan = 0 }) tt

  abbrev send_complete : M B (Unit {0})
  send_complete r =
      if r.body_complete_chan == 0 then done (record r { body_complete_chan = 1 }) tt else blocked r

  abbrev receive_complete : M B (Unit {0})
  receive_complete r =
      if r.body_complete_chan == 0 then blocked r else done (record r { body_complete_chan = 0 }) tt

  abbrev send_closed : M B (Unit {0})
  send_closed r = if r.closed_chan == 0 then done (record r { closed_chan = 1 }) tt else blocked r

  abbrev receive_closed : M B (Unit {0})
  receive_closed r =
      if r.closed_chan == 0 then blocked r else done (record r { closed_chan = 0 }) tt

  -- NewResponse
  unfoldable pub new_response : Response B
  new_response = record {
    code = 200;
    header_map = [];
    body = none;
    snap_header = [];
    wrote_header = false;
    body_complete = false;
    is_first_byte_written = false;
    body_chan = 0;
    body_complete_chan = 0;
    closed_chan = 0;
    headers_chan = 0;
  }

  -- A header that the upstream sets through Header().
  unfoldable pub set_header : Str → Str → Response B → Response B
  set_header k v r = record r { header_map = Headers.set r.header_map k v }

  -- WriteHeader
  unfoldable pub write_header : ℕ → M B (Unit {0})
  write_header code r =
      if r.wrote_header
      then done r tt
      else send_headers
          (record r { code = code; wrote_header = true; snap_header = snapshot r.header_map })

  -- writeHeader(b, "").
  unfoldable pub write_implicit_header : (Str → Str) → Str → M B (Unit {0})
  write_implicit_header detect b r =
      if r.wrote_header
      then done r tt
      else write_header r.code (record r { header_map = with_content_type detect b r.header_map })

  -- SetBody; the backend is nil where its construction failed.
  unfoldable pub set_body : Option B → M B (Unit {0})
  set_body b r = send_body (record r { body = b })

  -- WaitHeaders
  unfoldable pub wait_headers : M B (Unit {0})
  wait_headers = receive_headers

  -- WaitClose
  unfoldable pub wait_close : M B (Unit {0})
  wait_close = receive_closed

  -- `if r.body == nil { <-r.bodyChan }`
  unfoldable pub wait_body : M B (Unit {0})
  wait_body r = elim r.body [ none ↦ receive_body r | some b ↦ done r tt ]

  -- GetReader waits for the end of the body.
  unfoldable pub get_reader : {Reader : Type 0} → BackendOps B Reader → M B (Option Reader)
  get_reader ops = do
    λ r. if r.body_complete then done r tt else receive_complete r
    λ r. elim r.body [ none ↦ panicked | some b ↦ done r (ops.get_reader b) ]

  -- The error "No storage provided", or what the backend returns.
  unfoldable pub write_to_body :
      {Reader : Type 0} → BackendOps B Reader → Str → M B (ℕ × Option Str)
  write_to_body ops buf r = elim r.body [
    | none ↦ done r (0, some (codes "No storage provided"))
    | some b ↦
        let (c, result) = ops.write b buf in
        done (record r { body = some c; is_first_byte_written = true }) result
  ]

  -- Write
  unfoldable pub write :
      {Reader : Type 0} → BackendOps B Reader → (Str → Str) → Str → M B (ℕ × Option Str)
  write ops detect buf = do write_implicit_header detect buf; wait_body; write_to_body ops buf

  -- Flush
  unfoldable pub flush : {Reader : Type 0} → BackendOps B Reader → M B (Unit {0})
  unfolding write_header
  flush ops = do
    write_header 200
    λ r. elim r.body [
      | none ↦ done r tt
      | some b ↦ done (record r { body = some (ops.flush b) }) tt
    ]

  abbrev close_body : {Reader : Type 0} → BackendOps B Reader → M B (Unit {0})
  close_body ops r = elim r.body [
    | none ↦ panicked
    | some b ↦ done (record r { body = some (ops.close b); body_complete = true }) tt
  ]

  -- The part of Close after the wait for the body.
  unfoldable pub finish_close : {Reader : Type 0} → BackendOps B Reader → M B (Unit {0})
  finish_close ops = do close_body ops; send_complete; send_closed

  -- Close
  unfoldable pub close : {Reader : Type 0} → BackendOps B Reader → M B (Unit {0})
  close ops = do wait_body; finish_close ops

  -- Clean
  unfoldable pub clean : {Reader : Type 0} → BackendOps B Reader → Response B → Option Str
  clean ops r = elim r.body [ none ↦ none | some b ↦ ops.clean b ]
