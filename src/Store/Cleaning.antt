-- ===== src/Store/Cleaning.antt =====
-- cleanEntry, distributedClean and Del of cache.go.
use mathlib.Core.Option
use cdp_cache.Base.{
  ℕ, zero, suc, true, false, Option, none, some, List, [], ◌∷◌, ◌++◌, ◌==◌, if◌then◌else◌,
  get_elem?, length,
}
use cdp_cache.Base.Text.{Str}
use cdp_cache.Base.Assoc.{lookup}
use cdp_cache.Status.{Clock}
use cdp_cache.Entry.{Entry, is_fresh}
use cdp_cache.Store.{HttpCache, Slot, ◌>>=◌, bucket_of, slot_or_nil, with_slot, later}

-- How the lock of consul answers: an error, no channel, a channel that is already closed, or the
-- lead.
pub data LockAnswer : Type 0 where
  refused no_channel lost leads : LockAnswer

-- What a cleaning meets outside: the error of an entry's Clean, the error of NewDistributedLock,
-- and the lock's answer.
pub record Outside : Type 0 where
  pub clean_error : Entry → Option Str
  pub new_lock_error : Str → Option Str
  pub lock_answer : Str → LockAnswer

-- The bodies that were cleaned, oldest first, and the error.
abbrev pub CleanResult : Type 0
CleanResult = List Entry × Option Str

clean_as_leader : Outside → Entry → LockAnswer → CleanResult
clean_as_leader o e refused = ([], none)
clean_as_leader o e no_channel = ([], none)
clean_as_leader o e lost = ([], none)
clean_as_leader o e leads = (e ∷ [], o.clean_error e)

-- distributedClean
unfoldable pub distributed_clean : Outside → Str → Entry → CleanResult
unfolding clean_as_leader
distributed_clean o key e = elim (o.new_lock_error key) [
  | some err ↦ ([], some err)
  | none ↦ clean_as_leader o e (o.lock_answer key)
]

-- The entries without the first one at the address of e, if it is among them.
unfoldable pub remove_entry : Entry → List Entry → Option (List Entry)
remove_entry e [] = none
remove_entry e (x ∷ xs) =
    if e.ident == x.ident then some xs else Option.map (λ r. x ∷ r) (remove_entry e xs)

abbrev pub last_entry : Entry → List Entry → Entry
last_entry x [] = x
last_entry x (y ∷ ys) = last_entry y ys

-- append(s[:i], s[i+1:]...) moves the tail down by one: the last cell keeps its entry.
abbrev pub shrunk : Entry → List Entry → Slot → Slot
shrunk e rest s = record { live = rest; vacated = last_entry e s.live ∷ s.vacated }

-- The cache after a cleaning, and what became of the bodies.
abbrev pub Cleaned : Type 0
Cleaned = HttpCache × CleanResult

-- cleanEntry
unfoldable pub clean_entry : Outside → HttpCache → Entry → Option Cleaned
clean_entry o h e = do
  bucket ← bucket_of h e.key
  let slot = slot_or_nil (lookup e.key bucket)
  elim (remove_entry e slot.live) [
    | none ↦ some (h, ([], none))
    | some rest ↦ some (
      with_slot h e.key (shrunk e rest slot) bucket,
      if h.is_distributed then distributed_clean o e.key e else (e ∷ [], o.clean_error e),
    )
  ]

-- The array behind the slice of a key.
unfoldable pub cells : HttpCache → Str → List Entry
unfolding bucket_of
cells h key = elim (bucket_of h key) [
  | none ↦ []
  | some bucket ↦ let slot = slot_or_nil (lookup key bucket) in slot.live ++ slot.vacated
]

abbrev add_bodies : List Entry → Cleaned → Cleaned
add_bodies before (h, (after, err)) = (h, (before ++ after, err))

-- The loop of Del from index i on, with the number of rounds that the length at its start leaves.
-- It walks over the array as the cleanings leave it.
unfoldable pub del_loop : Outside → Str → ℕ → ℕ → Clock → HttpCache → Option Cleaned
del_loop o key zero i clock h = some (h, ([], none))
del_loop o key (suc rounds) i clock h =
    let next = λ (g : HttpCache). del_loop o key rounds (suc i) (later clock) g in
    elim (get_elem? (cells h key) i) [
      | none ↦ some (h, ([], none))
      | some e ↦ elim (is_fresh e (clock 0)) [
        | false ↦ next h
        | true ↦ elim (clean_entry o h e) [
          | none ↦ none
          | some (g, (bodies, some err)) ↦ some (g, (bodies, some err))
          | some (g, (bodies, none)) ↦ Option.map (add_bodies bodies) (next g)
        ]
      ]
    ]

-- Del
unfoldable pub del : Outside → Str → Clock → HttpCache → Option Cleaned
del o key clock h = do
  bucket ← bucket_of h key
  elim (lookup key bucket) [
    | none ↦ some (h, ([], none))
    | some slot ↦ del_loop o key (length slot.live) 0 clock h
  ]
