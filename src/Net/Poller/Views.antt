-- ===== src/Net/Poller/Views.antt =====
-- The channels that a poller has registered, after a call that leaves the other channels alone.
use pp_d_scache.Base.{
  ℕ, none, some, ◌==◌, if◌then◌else◌, ℕ_discrete, ◌≡◌, Option-cases, inl, inr, arith,
}
use pp_d_scache.Base.Table
use pp_d_scache.Base.Table.{Table}
use pp_d_scache.Net.Poller.{Events, Objects, updates, removes, registered, register}

pub insert_lookup :
    (k v : ℕ) (t : Table ℕ ℕ) (j : ℕ)
    → Table.insert ℕ_discrete k v t j ≡ (if j == k then some v else t j)
insert_lookup k v t j = ground arith

pub erase_lookup :
    (k : ℕ) (t : Table ℕ ℕ) (j : ℕ) → Table.erase ℕ_discrete k t j ≡ (if j == k then none else t j)
erase_lookup k t j = ground arith

module _ (c : ℕ) where
  pub view-removes :
      (os ps : Objects) (channels later : Table ℕ ℕ)
      → ((fd : ℕ) → later fd ≡ (if fd == (os c).fd then none else channels fd))
      → ((d : ℕ) → (ps d).events ≡ (os d).events)
      → (fd : ℕ)
      → registered ps later fd ≡ register (λ d. (os d).fd) (removes c) (registered os channels) fd
  unfolding register
  view-removes os ps channels later now same fd = elim (Option-cases (channels fd)) [
    | inl w ↦ ground (arith, now fd, w)
    | inr w ↦ ground (arith, now fd, w.1, same w.0)
  ]

  pub view-updates :
      (e : Events) (os ps : Objects) (channels later : Table ℕ ℕ)
      → ((fd : ℕ) → later fd ≡ (if fd == (os c).fd then some c else channels fd))
      → ((d : ℕ) → (ps d).events ≡ (if d == c then e else (os d).events))
      → ((fd : ℕ) → channels fd ≡ some c → (os c).fd ≡ fd)
      → (fd : ℕ)
      → registered ps later fd ≡ register (λ d. (os d).fd) (updates c e) (registered os channels) fd
  unfolding register
  view-updates e os ps channels later now same own fd = elim (Option-cases (channels fd)) [
    | inl w ↦ ground (arith, now fd, w, same c)
    | inr w ↦ ground (arith, now fd, w.1, same w.0, same c, own fd)
  ]
