-- ===== src/Backend/File/Stream.antt =====
-- A reader of backends/file.go that reads while the body is still written.
pub mod Later
pub mod Invariant
use mathlib.Core.Option
use cdp_cache.Base.{
  ℕ, zero, suc, ◌+◌, ◌<◌, ◌≤◌, ◌≡◌, refl, sym, ap, ◌∙◌, Bool, true, false, Option, none, some, List,
  [], ◌∷◌, ◌++◌, ◌==◌, length-append, subst, length, take, drop, append_assoc, append-nil, arith,
  ◌⊎◌, inl, inr, Bool-cases, if◌then◌else◌,
}
use cdp_cache.Base.Text.{Str}
use cdp_cache.Backend.File.Copy.{take-drop, take-nil, drop-nil}
use cdp_cache.Backend.File.{
  FileBackend, FileReader, ReadEnd, got, end_of_file, waits, read_content, read_end, read_after,
  take_token, read, write, flush, close, get_reader, with_subscription, write_file, write_result,
  after_token,
}
use cdp_cache.Backend.Subscription.{
  Channel, Subscription, notify_all, notify_each, close_each, close_subscription, set_channel,
  new_subscriber, map_channels,
}

pub data Event : Type 0 where
  writes : Str → Event
  flushes : Event
  closes : Event
  reads : ℕ → Event

-- The backend, one of its readers, what the reader has returned, and whether it has returned io.EOF.
pub record Stream : Type 0 where
  pub backend : FileBackend
  pub reader : FileReader
  pub output : Str
  pub ended : Bool

abbrev pub after_call : Stream → Option FileBackend → Option Stream
after_call s none = none
after_call s (some f) = some (record s { backend = f })

abbrev pub after_write : Stream → Option (FileBackend × (ℕ × Option Str)) → Option Stream
after_write s none = none
after_write s (some (f, _)) = some (record s { backend = f })

abbrev pub add_read : Stream → FileBackend × (FileReader × ReadEnd) → Stream
add_read s (f, (r, got p)) = record s { backend = f; reader = r; output = s.output ++ p }
add_read s (f, (r, end_of_file)) = record s { backend = f; reader = r; ended = true }
add_read s (f, (r, waits)) = record s { backend = f; reader = r }

-- `none` is a panic. A read that waits is tried again by a later event.
unfoldable pub step : Event → Stream → Option Stream
unfolding write flush close read
step (writes p) s = after_write s (write s.backend p)
step flushes s = after_call s (flush s.backend)
step closes s = some (record s { backend = close s.backend })
step (reads n) s = some (add_read s (read n s.backend s.reader))

unfoldable pub run : List Event → Stream → Option Stream
unfolding step
run [] s = some s
run (e ∷ es) s = let rest = λ (t : Stream). run es t in Option.bind (step e s) rest

-- A new reader of a file.
unfoldable pub start : FileBackend → Stream
unfolding get_reader
start f =
    let (g, r) = get_reader f in record { backend = g; reader = r; output = []; ended = false }

abbrev pub is_closed : FileBackend → FileReader → Bool
is_closed f r = (f.subscription.channels r.channel).is_closed
