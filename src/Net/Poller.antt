-- ===== src/Net/Poller.antt =====
-- master/net/Poller.h: what both pollers know of a channel, and what a poller is to do.
pub mod Views
pub mod Poll
pub mod Epoll
pub mod Same
pub mod Active
mod Examples
use pp_d_scache.Base.{
  ℕ, Bool, true, false, not, ◌&&◌, List, [], ◌∷◌, Option, none, some, ◌==◌, if◌then◌else◌,
  ℕ_discrete,
}
use pp_d_scache.Base.Table
use pp_d_scache.Base.Table.{Table}
use pp_d_scache.Base.Int.{ℤ, negsuc}

-- The bits of `events_`.
pub record Events : Type 0 where
  pub reading : Bool
  pub writing : Bool

abbrev pub is_none_event : Events → Bool
is_none_event e = not e.reading && not e.writing

-- A `Channel` as the pollers see it, at an address: `fd_`, `events_` and `index_`.
pub record Object : Type 0 where
  pub fd : ℕ
  pub events : Events
  pub index : ℤ

abbrev pub Objects : Type 0
Objects = ℕ → Object

abbrev pub put : ℕ → Object → Objects → Objects
put c o objects i = if i == c then o else objects i

-- The channels as they are constructed, at their descriptors.
abbrev pub constructed : (ℕ → ℕ) → Objects
constructed fds c = record {
  fd = fds c;
  events = record { reading = false; writing = false };
  index = negsuc 0;
}

-- The calls that a poller gets: `update` of a channel whose events were set, and `remove` of one.
pub data Call : Type 0 where
  updates : ℕ → Events → Call
  removes : ℕ → Call

-- Whether `channels_` has this channel at a descriptor.
abbrev pub has_channel : ℕ → ℕ → Table ℕ ℕ → Bool
has_channel fd c channels = elim (channels fd) [ none ↦ false | some d ↦ d == c ]

-- Whether `channels_.find` of a descriptor is `channels_.end()`.
abbrev pub is_free : ℕ → Table ℕ ℕ → Bool
is_free fd channels = elim (channels fd) [ none ↦ true | some d ↦ false ]

-- The abstract poller: the channel and its events for each descriptor that is registered.
abbrev pub Registered : Type 0
Registered = Table ℕ (ℕ × Events)

abbrev pub registered : Objects → Table ℕ ℕ → Registered
registered objects channels fd = elim (channels fd) [
  | none ↦ none
  | some c ↦ some (c, (objects c).events)
]

-- What a call does to it, with `fds` the descriptors of the channels.
unfoldable pub register : (ℕ → ℕ) → Call → Registered → ℕ → Option (ℕ × Events)
register fds (updates c e) r fd = if fd == fds c then some (c, e) else r fd
register fds (removes c) r fd = if fd == fds c then none else r fd

-- A descriptor is not taken from another channel, and a channel that goes asks for nothing.
unfoldable pub may : (ℕ → ℕ) → Call → Registered → Bool
may fds (updates c e) r = elim (r (fds c)) [ none ↦ true | some x ↦ x.0 == c ]
may fds (removes c) r = elim (r (fds c)) [ none ↦ false | some x ↦ x.0 == c && is_none_event x.1 ]
