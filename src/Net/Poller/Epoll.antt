-- ===== src/Net/Poller/Epoll.antt =====
-- master/net/poller/EPollPoller.h and EPollPoller.cc: `EPollPoller`, over the kernel's epoll instance.
pub mod Track
pub mod Calls
use pp_d_scache.Base.{
  ℕ, suc, ◌*◌, Bool, true, false, not, ◌&&◌, ◌||◌, List, [], ◌∷◌, Option, none, some, ◌==◌,
  if◌then◌else◌, Result, ok, err, ◌>>=◌, ◌>>◌, or_fault, undefined, ℕ_discrete, ◌≡◌,
}
use pp_d_scache.Base.Table
use pp_d_scache.Base.Table.{Table}
use pp_d_scache.Base.Int.{ℤ, pos, negsuc, int_eq}
use pp_d_scache.Net.Buffer.{require}
use pp_d_scache.Net.Poller.{
  Events, is_none_event, Object, Objects, put, Call, updates, removes, has_channel, is_free,
}

-- The operations of `epoll_ctl`.
pub data Op : Type 0 where
  add mod_ del : Op

-- The kernel's epoll instance: `epoll_ctl` of an operation, a descriptor, and an event with the
-- channel in its `data.ptr`, which may fail, the interest list, and `epoll_create1`.
pub record Kernel : Type 1 where
  pub K : Type 0
  pub ctl : Op → ℕ → ℕ × Events → K → Option K
  pub interest : K → ℕ → Option (ℕ × Events)
  pub create : K

-- What the manual of `epoll_ctl` says, where no limit of the system is met.
pub record IsEpoll (E : Kernel) : Type 0 where
  pub creates : (fd : ℕ) → E.interest E.create fd ≡ none
  pub adds :
      (fd : ℕ) (v : ℕ × Events) (k : E.K)
      → E.interest k fd ≡ none
      → (l : E.K) × (E.ctl add fd v k ≡ some l)
        × ((j : ℕ) → E.interest l j ≡ (if j == fd then some v else E.interest k j))
  pub changes :
      (fd : ℕ) (v w : ℕ × Events) (k : E.K)
      → E.interest k fd ≡ some w
      → (l : E.K) × (E.ctl mod_ fd v k ≡ some l)
        × ((j : ℕ) → E.interest l j ≡ (if j == fd then some v else E.interest k j))
  pub drops :
      (fd : ℕ) (v w : ℕ × Events) (k : E.K)
      → E.interest k fd ≡ some w
      → (l : E.K) × (E.ctl del fd v k ≡ some l)
        × ((j : ℕ) → E.interest l j ≡ (if j == fd then none else E.interest k j))

abbrev pub k_new : ℤ
k_new = negsuc 0

abbrev pub k_added : ℤ
k_added = pos 1

abbrev pub k_deleted : ℤ
k_deleted = pos 2

module _ (E : Kernel) where
  pub record EPollPoller : Type 0 where
    pub objects : Objects
    pub channels : Table ℕ ℕ
    pub epoll : E.K

  abbrev pub init : Objects → EPollPoller
  init objects = record { objects = objects; channels = Table.empty; epoll = E.create }

  abbrev pub set_index : ℕ → ℤ → EPollPoller → EPollPoller
  set_index c i p = record p { objects = put c (record (p.objects c) { index = i }) p.objects }

  -- Only the failure to delete is not fatal.
  unfoldable pub update : Op → ℕ → EPollPoller → Result EPollPoller
  update op c p =
      let o = p.objects c in
      elim (E.ctl op o.fd (c, o.events) p.epoll) [
        | none ↦ elim op [ add ↦ err undefined | mod_ ↦ err undefined | del ↦ ok p ]
        | some k ↦ ok (record p { epoll = k })
      ]

  unfoldable pub add_channel : ℕ → EPollPoller → Result EPollPoller
  add_channel c p = do
    let o = p.objects c
    require
        (if int_eq o.index k_new then is_free o.fd p.channels else has_channel o.fd c p.channels)
    let q = record p { channels = Table.insert ℕ_discrete o.fd c p.channels }
    update add c (set_index c k_added (if int_eq o.index k_new then q else p))

  unfoldable pub change_channel : ℕ → EPollPoller → Result EPollPoller
  change_channel c p = do
    let o = p.objects c
    require (has_channel o.fd c p.channels && int_eq o.index k_added)
    (if is_none_event o.events
        then (update del c p >>= λ q. ok (set_index c k_deleted q))
        else update mod_ c p)

  unfoldable pub update_channel : ℕ → EPollPoller → Result EPollPoller
  update_channel c p =
      let i = (p.objects c).index in
      if int_eq i k_new || int_eq i k_deleted then add_channel c p else change_channel c p

  unfoldable pub remove_channel : ℕ → EPollPoller → Result EPollPoller
  remove_channel c p = do
    let o = p.objects c
    require (has_channel o.fd c p.channels)
    require (is_none_event o.events)
    require (int_eq o.index k_added || int_eq o.index k_deleted)
    let q = record p { channels = Table.erase ℕ_discrete o.fd p.channels }
    r ← (if int_eq o.index k_added then update del c q else ok q)
    ok (set_index c k_new r)

  unfoldable pub call : Call → EPollPoller → Result EPollPoller
  call (updates c e) p =
      update_channel c
        (record p { objects = put c (record (p.objects c) { events = e }) p.objects })
  call (removes c) p = remove_channel c p

  unfoldable pub run_calls : List Call → EPollPoller → Result EPollPoller
  run_calls [] p = ok p
  run_calls (x ∷ l) p = do q ← call x p; run_calls l q
