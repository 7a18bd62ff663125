-- ===== src/Backend/Subscription.antt =====
-- Subscription of backends/file.go.
-- A channel of a subscriber has room for one value: it is the number of values in it, and whether it
-- is closed. Channels are numbers; `make` takes the next one. The locks are left out: each call is
-- one step.
pub mod Removal
use cdp_cache.Base.{
  ℕ, zero, suc, Bool, true, false, Option, none, some, List, [], ◌∷◌, ◌++◌, ◌==◌, ltb, length, drop,
  get_elem?, if◌then◌else◌,
}

pub record Channel : Type 0 where
  pub tokens : ℕ
  pub is_closed : Bool

-- `subscribers` is the live part of the slice, `vacated` what its array holds behind it.
pub record Subscription : Type 0 where
  pub closed : Bool
  pub subscribers : List ℕ
  pub vacated : List ℕ
  pub no_subscriber_chan : ℕ
  pub channels : ℕ → Channel
  pub next_channel : ℕ

abbrev pub set_channel : (ℕ → Channel) → ℕ → Channel → ℕ → Channel
set_channel f i c j = if i == j then c else f j

-- NewSubscription
unfoldable pub new_subscription : Subscription
new_subscription = record {
  closed = false;
  subscribers = [];
  vacated = [];
  no_subscriber_chan = 0;
  channels = λ i. record { tokens = 0; is_closed = false };
  next_channel = 0;
}

abbrev make_channel : Subscription → Bool → Subscription
make_channel s closed = record s {
  channels = set_channel s.channels s.next_channel (record { tokens = 0; is_closed = closed });
  next_channel = suc s.next_channel;
}

-- An append writes over the first vacated cell, if there is one.
abbrev append_subscriber : Subscription → ℕ → Subscription
append_subscriber s c = record s {
  subscribers = s.subscribers ++ c ∷ [];
  vacated = drop 1 s.vacated;
}

-- NewSubscriber: the channel of the new subscriber.
unfoldable pub new_subscriber : Subscription → Subscription × ℕ
new_subscriber s =
    if s.closed
    then (make_channel s true, s.next_channel)
    else (append_subscriber (make_channel s false) s.next_channel, s.next_channel)

abbrev pub remove_at : ℕ → List ℕ → List ℕ
remove_at i [] = []
remove_at zero (x ∷ xs) = xs
remove_at (suc i) (x ∷ xs) = x ∷ remove_at i xs

abbrev pub last_cell : List ℕ → List ℕ
last_cell [] = []
last_cell (x ∷ []) = x ∷ []
last_cell (x ∷ y ∷ xs) = last_cell (y ∷ xs)

-- The live part of a slice and what its array holds behind it.
pub record Slice : Type 0 where
  pub live : List ℕ
  pub behind : List ℕ

-- `append(s[:i], s[i+1:]...)`, which shifts the array in place; `none` is an index out of range.
unfoldable pub delete_at : ℕ → Slice → Option Slice
delete_at i s =
    if ltb i (length s.live)
    then some (record { live = remove_at i s.live; behind = last_cell s.live ++ s.behind })
    else none

-- A round at a cell; a subscriber that is found is deleted, and the loop goes on.
abbrev pub deleted : (Slice → Option Slice) → Option Slice → Option Slice
deleted next none = none
deleted next (some t) = next t

unfoldable pub visit : ℕ → ℕ → Slice → (Slice → Option Slice) → Option ℕ → Option Slice
unfolding delete_at
visit subscriber i s next none = none
visit subscriber i s next (some x) =
    if x == subscriber then deleted next (delete_at i s) else next s

-- The loop of RemoveSubscriber, over the cells that the array has at each round.
unfoldable pub remove_loop : ℕ → ℕ → ℕ → Slice → Option Slice
unfolding visit
remove_loop subscriber zero i s = some s
remove_loop subscriber (suc rounds) i s =
    visit subscriber i s (λ (t : Slice). remove_loop subscriber rounds (suc i) t)
      (get_elem? (s.live ++ s.behind) i)

abbrev pub is_empty : List ℕ → Bool
is_empty [] = true
is_empty (x ∷ xs) = false

abbrev pub with_slice : Subscription → Slice → Subscription
with_slice s t = record s {
  subscribers = t.live;
  vacated = t.behind;
  no_subscriber_chan = if is_empty t.live then 1 else s.no_subscriber_chan;
}

abbrev pub map_slice : Subscription → Option Slice → Option Subscription
map_slice s none = none
map_slice s (some t) = some (with_slice s t)

-- RemoveSubscriber; the token is dropped if the channel has one.
unfoldable pub remove_subscriber : Subscription → ℕ → Option Subscription
unfolding remove_loop delete_at
remove_subscriber s subscriber = map_slice s (
    remove_loop subscriber (length s.subscribers) 0
      (record { live = s.subscribers; behind = s.vacated }))

abbrev close_channel : Channel → Channel
close_channel c = record c { is_closed = true }

-- The loop over the subscribers of Close.
unfoldable pub close_each : List ℕ → (ℕ → Channel) → ℕ → Channel
close_each [] f = f
close_each (c ∷ cs) f = close_each cs (set_channel f c (close_channel (f c)))

-- Close of a subscription; a channel that is closed twice panics, which `closed` rules out.
unfoldable pub close_subscription : Subscription → Subscription
unfolding close_each
close_subscription s =
    if s.closed
    then s
    else record s { closed = true; channels = close_each s.subscribers s.channels }

abbrev notify_channel : Channel → Channel
notify_channel c = record c { tokens = 1 }

-- The loop of NotifyAll; `none` is the panic of a send on a closed channel.
unfoldable pub notify_each : List ℕ → (ℕ → Channel) → Option (ℕ → Channel)
notify_each [] f = some f
notify_each (c ∷ cs) f =
    let rest = notify_each cs (set_channel f c (notify_channel (f c))) in
    if (f c).is_closed then none else rest

abbrev pub map_channels : Subscription → Option (ℕ → Channel) → Option Subscription
map_channels s none = none
map_channels s (some f) = some (record s { channels = f })

-- NotifyAll: a full channel is passed over, and so keeps its one token.
unfoldable pub notify_all : Subscription → Option Subscription
unfolding notify_each
notify_all s = map_channels s (notify_each s.subscribers s.channels)

-- WaitAll; `none` waits.
unfoldable pub wait_all : Subscription → Option Subscription
wait_all s =
    if is_empty s.subscribers
    then some s
    else if s.no_subscriber_chan == 0
    then none
    else some (record s { no_subscriber_chan = 0 })
