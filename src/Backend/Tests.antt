-- ===== src/Backend/Tests.antt =====
-- The storages at concrete bodies, with a group that is a plain map.
use mathlib.Core.Option
use cdp_cache.Base.{
  Bool, false, ◌≡◌, refl, true, Option, none, some, List, [], ◌∷◌, inl, arith, if◌then◌else◌,
}
use cdp_cache.Base.Int.{pos}
use cdp_cache.Base.Text.{Str, codes, str_eq, str_eq_refl, concat, ne_of_str_eq, has_prefix}
use cdp_cache.Base.Assoc.{lookup}
use cdp_cache.Header
use cdp_cache.Header.{canonical_key}
use cdp_cache.Entry.{Entry, key_with_respect_vary}
use cdp_cache.Backend.Memory as Memory
use cdp_cache.Backend.Memory.{
  Loaded, loaded, no_pre_collect, load_error, Fetched, bytes, missing, fetch_error, GroupCache,
  IsGroup,
}
use cdp_cache.Backend.Memory.Reads.{with_body, memory_round_trip}
use cdp_cache.Backend.Memory.Variants.{VariesOn, second_variant_reads_first}
use cdp_cache.Backend.File as File
use cdp_cache.Backend.Subscription
use cdp_cache.Backend.Subscription.{Subscription, remove_subscriber}
use cdp_cache.Backend.File.{FileBackend, FileReader, new_file_backend}
use cdp_cache.Backend.File.Copy.{stored_and_copied, file_round_trip}
use cdp_cache.Backend.File.Stream.{Event, Stream, step, writes, closes, reads, run, start}
use cdp_cache.Backend.File.Stream.Invariant.{reader_streams_file}

abbrev Map : Type 0
Map = Str → Option Str

abbrev put : Map → Str → Str → Map
put m k v j = if str_eq k j then some v else m j

abbrev answer : Map → Str → Option Str → Loaded → Map × Fetched
answer m k (some v) l = (m, bytes v)
answer m k none (loaded v ttl) = (put m k v, bytes v)
answer m k none no_pre_collect = (m, missing)
answer m k none (load_error e) = (m, fetch_error e)

abbrev group : GroupCache Map
group = record {
  get = λ m k l. answer m k (m k) l;
  remove = λ m k. ((λ j. if str_eq k j then none else m j), none);
  holds = λ m k. m k;
}

put_self : (m : Map) (k v : Str) → put m k v k ≡ some v
put_self m k v = rw (str_eq_refl k) refl

group-IsGroup : IsGroup group
group-IsGroup = record {
  get-held = λ m k l b h. rw h (refl, h);
  get-loaded = λ m k b ttl h. rw h (refl, inl (put_self m k b));
  get-missing = λ m k h. rw h refl;
}

abbrev empty : Map
empty k = none

memory_round_trip_example :
    let c =
      Memory.close group empty (with_body (codes "k") (pos 9) (codes "ab") (codes "c" ∷ [])) in
    (c.1.1 ≡ none) × ((Memory.get_reader group c.1.0 c.0).1.1 ≡ bytes (codes "abc"))
unfolding concat
memory_round_trip_example =
    memory_round_trip group group-IsGroup empty (codes "k") (pos 9) (codes "ab") (codes "c" ∷ [])
      refl

abbrev page : Str → Entry
page lang = record {
  ident = 0;
  is_public = true;
  expiration = pos 9;
  key = codes "k";
  request = record { method = codes "GET"; path = codes "/"; header = (codes "L", lang ∷ []) ∷ [] };
  code = 200;
  header_map = [];
  snap_header = (codes "Vary", codes "E, L" ∷ []) ∷ [];
}

varies : (lang : Str) → VariesOn (codes "E") (codes "L") (page lang)
unfolding Header.get lookup str_eq canonical_key
varies lang = record {
  vary = refl;
  no_spaced_name = (ne_of_str_eq (codes "L") (codes " L") refl, tt);
}

abbrev english : Map
english = put empty (key_with_respect_vary (page (codes "en"))) (codes "hello")

-- The German body is dropped, and the English one is read.
second_variant_reads_first_example :
    let i = with_body (key_with_respect_vary (page (codes "de"))) (pos 9) (codes "hallo") [] in
    let c = Memory.close group english i in
    (c.1.1 ≡ none) × ((Memory.get_reader group c.1.0 c.0).1.1 ≡ bytes (codes "hello"))
second_variant_reads_first_example =
    second_variant_reads_first group group-IsGroup english (page (codes "en")) (page (codes "de"))
      (codes "E") (codes "L") (codes "hallo") [] (codes "hello") refl ((λ e. omega arith), tt)
      ((λ e. omega arith), tt) (varies (codes "en")) (varies (codes "de"))
      (unfold Header.get lookup str_eq canonical_key in refl)
      (put_self empty (key_with_respect_vary (page (codes "en"))) (codes "hello"))

file_round_trip_example : stored_and_copied 4 2 (codes "ab" ∷ codes "c" ∷ []) ≡ some (codes "abc")
unfolding concat
file_round_trip_example =
    file_round_trip 4 2 (codes "ab" ∷ codes "c" ∷ []) (omega arith) (omega arith)

-- A reader between the two writes.
abbrev schedule : List Event
schedule = writes (codes "ab") ∷ reads 9 ∷ writes (codes "c") ∷ closes ∷ reads 9 ∷ reads 9 ∷ []

abbrev or_start : Option Stream → Stream
or_start none = start new_file_backend
or_start (some s) = s

abbrev streamed : Stream
streamed = or_start (run schedule (start new_file_backend))

streamed_test : (streamed.output ≡ codes "abc") × (streamed.ended ≡ true)
unfolding run step start Option.bind new_file_backend File.write File.flush File.close File.read
    File.read_content File.read_after File.get_reader Subscription.new_subscriber
    Subscription.new_subscription Subscription.notify_all Subscription.notify_each
    Subscription.close_each Subscription.close_subscription
streamed_test = (refl, refl)

run_test : run schedule (start new_file_backend) ≡ some streamed
unfolding run step start Option.bind new_file_backend File.write File.flush File.close File.read
    File.read_content File.read_after File.get_reader Subscription.new_subscriber
    Subscription.new_subscription Subscription.notify_all Subscription.notify_each
    Subscription.close_each Subscription.close_subscription
run_test = refl

reader_streams_file_example :
    has_prefix streamed.backend.bytes streamed.output ≡ true
    × (streamed.ended ≡ true
        → (streamed.output ≡ streamed.backend.bytes) × (streamed.backend.file_closed ≡ true))
unfolding new_file_backend Subscription.new_subscription
reader_streams_file_example =
    reader_streams_file new_file_backend schedule streamed (λ e. e) run_test

abbrev three_readers : Subscription
three_readers = record Subscription.new_subscription { subscribers = 5 ∷ 6 ∷ 7 ∷ [] }

-- Whether a call goes on, rather than waits.
abbrev goes_on : Option FileBackend → Bool
goes_on none = false
goes_on (some f) = true

-- The second of two readers, of which the first has been closed.
abbrev reopened : Option FileBackend → Option FileBackend
reopened none = none
reopened (some f) = some (File.get_reader f).0

abbrev one_reader : FileBackend × FileReader
one_reader = File.get_reader new_file_backend

-- Clean waits for a reader; but for a second one, after the first, it does not.
clean_test :
    (goes_on (File.clean one_reader.0) ≡ false)
    × (goes_on (Option.bind (reopened (File.close_reader one_reader.0 one_reader.1)) File.clean)
        ≡ true)
unfolding Option.bind File.clean File.close_reader new_file_backend File.get_reader
    Subscription.new_subscription Subscription.new_subscriber Subscription.remove_subscriber
    Subscription.remove_loop Subscription.visit Subscription.delete_at Subscription.wait_all
clean_test = (refl, refl)
