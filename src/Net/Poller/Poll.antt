-- ===== src/Net/Poller/Poll.antt =====
-- master/net/poller/PollPoller.h and PollPoller.cc: `PollPoller`, over the channels at their
-- addresses. `pos fd` is a descriptor, and `negsuc fd` is `-fd - 1`, which `poll` ignores.
pub mod Sync
pub mod Removal
pub mod Refine
pub mod Watch
use pp_d_scache.Base.{
  ℕ, suc, ◌+◌, ◌-◌, Bool, true, false, not, ◌&&◌, ◌||◌, List, [], ◌∷◌, ◌++◌, Option, none, some,
  ltb, ◌==◌, if◌then◌else◌, Result, ok, err, ◌>>=◌, ◌>>◌, or_fault, undefined, length, get_elem?,
  set, ℕ_discrete,
}
use pp_d_scache.Base.Table
use pp_d_scache.Base.Table.{Table}
use pp_d_scache.Base.Arrays.{back, pop_back}
use pp_d_scache.Base.Int.{ℤ, pos, negsuc, int_eq}
use pp_d_scache.Net.Buffer.{require}
use pp_d_scache.Net.Poller.{
  Events, is_none_event, Object, Objects, put, Call, updates, removes, has_channel, is_free,
}

-- `struct pollfd`, without `revents`.
pub record PollFd : Type 0 where
  pub fd : ℤ
  pub events : Events

-- The fields of `PollPoller` and `Poller`, with the channels in memory.
pub record PollPoller : Type 0 where
  pub objects : Objects
  pub channels : Table ℕ ℕ
  pub pollfds : List PollFd

abbrev pub init : Objects → PollPoller
init objects = record { objects = objects; channels = Table.empty; pollfds = [] }

abbrev pub fd_of : ℤ → ℕ
fd_of (pos fd) = fd
fd_of (negsuc fd) = fd

unfoldable pub add_channel : ℕ → PollPoller → Result PollPoller
add_channel c p = do
  let o = p.objects c
  require (is_free o.fd p.channels)
  ok (record {
    objects = put c (record o { index = pos (length p.pollfds) }) p.objects;
    channels = Table.insert ℕ_discrete o.fd c p.channels;
    pollfds = p.pollfds ++ (record { fd = pos o.fd; events = o.events } ∷ []);
  })

unfoldable pub change_channel : ℕ → ℕ → PollPoller → Result PollPoller
change_channel c idx p = do
  let o = p.objects c
  require (has_channel o.fd c p.channels)
  pfd ← or_fault (get_elem? p.pollfds idx) undefined
  require (int_eq pfd.fd (pos o.fd) || int_eq pfd.fd (negsuc o.fd))
  ok (record p {
    pollfds = set p.pollfds idx (record {
      fd = if is_none_event o.events then negsuc o.fd else pos o.fd;
      events = o.events;
    });
  })

unfoldable pub update_channel : ℕ → PollPoller → Result PollPoller
update_channel c p = elim ((p.objects c).index) [
  | negsuc n ↦ add_channel c p
  | pos idx ↦ change_channel c idx p
]

abbrev pub events_eq : Events → Events → Bool
events_eq a b =
    (if a.reading then b.reading else not b.reading)
    && (if a.writing then b.writing else not b.writing)

-- The entry of `idx` and the last one are swapped, and the last one is dropped.
unfoldable pub swap_out : ℕ → PollPoller → Result PollPoller
swap_out idx p = do
  pfd ← or_fault (get_elem? p.pollfds idx) undefined
  last ← or_fault (back p.pollfds) undefined
  moved ← or_fault (p.channels (fd_of last.fd)) undefined
  ok (record p {
    objects = put moved (record (p.objects moved) { index = pos idx }) p.objects;
    pollfds = pop_back (set (set p.pollfds idx last) (length p.pollfds - 1) pfd);
  })

unfoldable pub remove_channel : ℕ → PollPoller → Result PollPoller
remove_channel c p = do
  let o = p.objects c
  require (has_channel o.fd c p.channels)
  require (is_none_event o.events)
  idx ← elim o.index [ pos idx ↦ ok idx | negsuc n ↦ err undefined ]
  pfd ← or_fault (get_elem? p.pollfds idx) undefined
  require (int_eq pfd.fd (negsuc o.fd) && events_eq pfd.events o.events)
  let q = record p { channels = Table.erase ℕ_discrete o.fd p.channels }
  (if idx == length p.pollfds - 1
      then ok (record q { pollfds = pop_back q.pollfds })
      else swap_out idx q)

-- `Channel::update` and `Channel::remove`, down to the poller.
unfoldable pub call : Call → PollPoller → Result PollPoller
call (updates c e) p =
    update_channel c (record p { objects = put c (record (p.objects c) { events = e }) p.objects })
call (removes c) p = remove_channel c p

unfoldable pub run_calls : List Call → PollPoller → Result PollPoller
run_calls [] p = ok p
run_calls (x ∷ l) p = do q ← call x p; run_calls l q
