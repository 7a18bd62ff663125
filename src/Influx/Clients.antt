-- ===== src/Influx/Clients.antt =====
-- The clients of extends/influxlog/influx.go: OpenWriter, Close of the writer that it gives, and
-- Cleanup. The library of influx is a parameter only in that its clients are numbered here, in the
-- order in which they are made.
use cdp_cache.Base.{ℕ, zero, suc, ◌+◌, ◌≡◌, refl, ap, ◌∙◌, Option, none, some, List, ◌∷◌, arith}
use cdp_cache.Influx.{InfluxConfig}

-- How many clients there are, the ones that are closed, and the write interfaces that were flushed
-- and closed, by the client they belong to.
pub record Clients : Type 0 where
  pub made : ℕ
  pub closed : List ℕ
  pub flushed : List ℕ

-- Writer
pub record InfluxWriter : Type 0 where
  pub client : Option ℕ
  pub config : InfluxConfig

-- OpenWriter: the writer that it returns belongs to the new client.
unfoldable pub open_writer : Clients → InfluxWriter → (Clients × InfluxWriter) × ℕ
open_writer c w = ((record c { made = suc c.made }, record w { client = some c.made }), c.made)

-- Close of influxWriteCloser: Flush and Close of the write interface.
unfoldable pub close_writer : ℕ → Clients → Clients
close_writer n c = record c { flushed = n ∷ c.flushed }

-- Cleanup; `none` is the panic of a nil client.
unfoldable pub cleanup_writer : InfluxWriter → Clients → Option Clients
cleanup_writer w c = by_client w.client
  where
    by_client : Option ℕ → Option Clients
    by_client none = none
    by_client (some n) = some (record c { closed = n ∷ c.closed })

-- OpenWriter n times.
unfoldable pub open_times : ℕ → Clients × InfluxWriter → Clients × InfluxWriter
unfolding open_writer
open_times zero s = s
open_times (suc n) s = open_times n (open_writer s.0 s.1).0

open_times-made :
    (n : ℕ) (s : Clients × InfluxWriter)
    → ((open_times n s).0.made ≡ n + s.0.made) × ((open_times n s).0.closed ≡ s.0.closed)
unfolding open_times open_writer
open_times-made zero s = (omega arith, refl)
open_times-made (suc n) s =
    let t = (open_writer s.0 s.1).0 in
    let (made, closed) = open_times-made n t in (made ∙ omega arith, closed)

open_times-client :
    (n : ℕ) (s : Clients × InfluxWriter) → (open_times (suc n) s).1.client ≡ some (n + s.0.made)
unfolding open_times open_writer
open_times-client zero s = ap some (omega arith)
open_times-client (suc n) s =
    let t = (open_writer s.0 s.1).0 in open_times-client n t ∙ ap some (omega arith)

-- Cleanup of a log that was opened n + 1 times closes the last client only, and of one that was
-- never opened it panics.
pub cleanup_writer-open_times :
    (n : ℕ) (c : Clients) (config : InfluxConfig)
    → let fresh : InfluxWriter = record { client = none; config = config } in
      let (d, w) = open_times (suc n) (c, fresh) in
      (cleanup_writer fresh c ≡ none)
      × (cleanup_writer w d ≡ some (record d { closed = (n + c.made) ∷ c.closed }))
      × (d.made ≡ suc n + c.made)
unfolding cleanup_writer
cleanup_writer-open_times n c config =
    let fresh : InfluxWriter = record { client = none; config = config } in
    let (made, closed) = open_times-made (suc n) (c, fresh) in
    (refl, rw (open_times-client n (c, fresh), closed) refl, made)
