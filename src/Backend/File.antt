-- ===== src/Backend/File.antt =====
-- FileBackend and FileReader of backends/file.go.
-- The file is its bytes: os.MkdirAll, os.CreateTemp and os.Open are taken not to fail, and a write to a
-- closed file is the error.
-- The locks are left out: each call is one step.
pub mod Copy
pub mod Stream
use mathlib.Core.Option
use cdp_cache.Base.{
  ℕ, zero, suc, ◌+◌, Bool, true, false, Option, none, some, List, [], ◌∷◌, ◌++◌, ◌==◌, ltb, length,
  take, drop, get_elem?, if◌then◌else◌,
}
use cdp_cache.Base.Text.{Str, codes}
use cdp_cache.Backend.Subscription.{
  Channel, Subscription, set_channel, new_subscription, new_subscriber, remove_at, last_cell, Slice,
  delete_at, remove_loop, map_slice, remove_subscriber, close_each, close_subscription, notify_each,
  map_channels, notify_all, wait_all,
}

pub record FileBackend : Type 0 where
  pub bytes : Str
  pub file_closed : Bool
  pub subscription : Subscription

-- NewFileBackend
unfoldable pub new_file_backend : FileBackend
unfolding new_subscription
new_file_backend = record { bytes = []; file_closed = false; subscription = new_subscription }

-- The call of the file, and then the deferred NotifyAll; `none` is its panic.
abbrev pub with_subscription : FileBackend → Option Subscription → Option FileBackend
with_subscription f none = none
with_subscription f (some s) = some (record f { subscription = s })

abbrev pub write_file : FileBackend → Str → FileBackend
write_file f p = if f.file_closed then f else record f { bytes = f.bytes ++ p }

abbrev pub write_result : FileBackend → Str → ℕ × Option Str
write_result f p =
    if f.file_closed then (0, some (codes "file already closed")) else (length p, none)

-- Write
unfoldable pub write : FileBackend → Str → Option (FileBackend × (ℕ × Option Str))
unfolding notify_all
write f p =
    Option.map (λ g. (g, write_result f p))
      (with_subscription (write_file f p) (notify_all f.subscription))

-- Flush
unfoldable pub flush : FileBackend → Option FileBackend
unfolding notify_all
flush f = with_subscription f (notify_all f.subscription)

-- Length
unfoldable pub backend_length : FileBackend → ℕ
backend_length f = 0

-- Close
unfoldable pub close : FileBackend → FileBackend
unfolding close_subscription
close f = record f { file_closed = true; subscription = close_subscription f.subscription }

-- Clean waits for the readers, and then removes the file; `none` waits.
unfoldable pub clean : FileBackend → Option FileBackend
unfolding wait_all
clean f = with_subscription f (wait_all f.subscription)

-- A reader: its channel, and how far it has read.
pub record FileReader : Type 0 where
  pub channel : ℕ
  pub offset : ℕ

-- GetReader
unfoldable pub get_reader : FileBackend → FileBackend × FileReader
unfolding new_subscriber
get_reader f =
    let (s, c) = new_subscriber f.subscription in
    (record f { subscription = s }, record { channel = c; offset = 0 })

-- How a Read ends: with bytes, with io.EOF, or in the wait for the channel.
pub data ReadEnd : Type 0 where
  got : Str → ReadEnd
  end_of_file : ReadEnd
  waits : ReadEnd

-- At the end of the file os.File.Read says io.EOF, unless the buffer is empty.
abbrev pub read_end : ℕ → Str → ReadEnd
read_end zero [] = got []
read_end (suc n) [] = end_of_file
read_end n (c ∷ s) = got (c ∷ s)

-- Read of the file, into a buffer of n bytes.
unfoldable pub read_content : ℕ → Str → FileReader → FileReader × ReadEnd
read_content n bytes r =
    let part = take n (drop r.offset bytes) in
    (record r { offset = r.offset + length part }, read_end n part)

abbrev pub take_token : FileBackend → ℕ → FileBackend
take_token f c =
    let s = f.subscription in
    record f {
      subscription = record s {
        channels = set_channel s.channels c (record (s.channels c) { tokens = 0 });
      };
    }

-- `for range r.subscription` once the channel is empty: it waits, or ends and the file is read.
unfoldable pub read_after : ℕ → FileBackend → FileReader → FileBackend × (FileReader × ReadEnd)
unfolding read_content
read_after n f r =
    if (f.subscription.channels r.channel).is_closed
    then (f, read_content n f.bytes r)
    else (f, (r, waits))

-- After a token: what is there is returned, and at the end of the file the loop goes on.
abbrev pub after_token :
    ℕ → FileBackend → FileReader → FileReader × ReadEnd → FileBackend × (FileReader × ReadEnd)
after_token n f r (r', got s) = (f, (r', got s))
after_token n f r (r', end_of_file) = read_after n f r'
after_token n f r (r', waits) = (f, (r', waits))

-- FileReader.Read, into a buffer of n bytes.
unfoldable pub read : ℕ → FileBackend → FileReader → FileBackend × (FileReader × ReadEnd)
unfolding read_after
read n f r =
    if (f.subscription.channels r.channel).tokens == 0
    then read_after n f r
    else let g = take_token f r.channel in after_token n g r (read_content n g.bytes r)

-- FileReader.Close
unfoldable pub close_reader : FileBackend → FileReader → Option FileBackend
unfolding remove_subscriber
close_reader f r = with_subscription f (remove_subscriber f.subscription r.channel)
