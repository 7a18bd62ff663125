-- ===== src/Backend.antt =====
-- The storages of backends/: the interface Backend of backend.go is the record BackendOps of
-- Response, and this file is its instance Base, which wraps the client's writer.
pub mod File
pub mod Memory
pub mod Redis
pub mod Subscription
pub mod Tests
use cdp_cache.Base.{ℕ, Option, none, some, ◌⊎◌, inl, inr}
use cdp_cache.Base.Text.{Str}
use cdp_cache.Base.{length}
use cdp_cache.Http.{Writer, write_body}
use cdp_cache.Response.{BackendOps}

-- Base has no reader: GetReader is always the error "private responses are not readable".
unfoldable pub base_ops : BackendOps Writer (Unit {0})
base_ops = record {
  write = λ w p. (write_body w p, (length p, none));
  flush = λ w. w;
  close = λ w. w;
  clean = λ w. none;
  get_reader = λ w. none;
  length = λ w. 0;
}

-- The value of a variable of the interface type Backend: a storage, or Base around a writer.
abbrev pub AnyBackend : Type 0 → Type 0
AnyBackend B = B ⊎ Writer

module _ {B Reader : Type 0} (ops : BackendOps B Reader) where
  abbrev any_write : AnyBackend B → Str → AnyBackend B × (ℕ × Option Str)
  any_write (inl b) p = let (c, result) = ops.write b p in (inl c, result)
  any_write (inr w) p = let (v, result) = base_ops.write w p in (inr v, result)

  abbrev any_flush : AnyBackend B → AnyBackend B
  any_flush (inl b) = inl (ops.flush b)
  any_flush (inr w) = inr (base_ops.flush w)

  abbrev any_close : AnyBackend B → AnyBackend B
  any_close (inl b) = inl (ops.close b)
  any_close (inr w) = inr (base_ops.close w)

  abbrev any_clean : AnyBackend B → Option Str
  any_clean (inl b) = ops.clean b
  any_clean (inr w) = base_ops.clean w

  -- Base never gives a reader, so that a reader is always one of the storage.
  abbrev any_reader : AnyBackend B → Option Reader
  any_reader (inl b) = ops.get_reader b
  any_reader (inr w) = none

  abbrev any_length : AnyBackend B → ℕ
  any_length (inl b) = ops.length b
  any_length (inr w) = base_ops.length w

  -- A call of a method of the interface goes to the method of the value that it holds.
  unfoldable pub any_ops : BackendOps (AnyBackend B) Reader
  unfolding base_ops
  any_ops = record {
    write = any_write;
    flush = any_flush;
    close = any_close;
    clean = any_clean;
    get_reader = any_reader;
    length = any_length;
  }
