-- ===== src/Http.antt =====
-- The parts of net/http's Request and ResponseWriter that the program reads and writes.
use cdp_cache.Base.{ℕ, Option, none, some, ◌++◌}
use cdp_cache.Base.Text.{Str}
use cdp_cache.Header.{Header}

pub record Request : Type 0 where
  pub method : Str
  pub path : Str
  pub header : Header

-- A response writer: its header map, the status once it is written, and the bytes written.
pub record Writer : Type 0 where
  pub header : Header
  pub status : Option ℕ
  pub body : Str

-- WriteHeader: the first status stays (net/http ignores a further call).
abbrev pub write_status : Writer → ℕ → Writer
write_status w code = record w { status = first w.status code }
  where
    first : Option ℕ → ℕ → Option ℕ
    first none c = some c
    first (some d) c = some d

-- A write without a status before it sends 200.
abbrev pub write_body : Writer → Str → Writer
write_body w p = let v = write_status w 200 in record v { body = v.body ++ p }
