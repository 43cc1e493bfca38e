-- ===== src/Store/Lease/Failover.antt =====
-- Failover: an expired lease goes to whoever asks, and the instance that lost it is fenced out.
use cyberware.Prelude.{
  ℕ, ◌+◌, ◌<◌, ◌≡◌, ◌≢◌, ◌↔◌, refl, sym, true, false, Option, none, some, Text, same_text_iff,
  text_self, text_ne, lt→ltb, arith,
}
use cyberware.Store.Lease.{
  Row, Leases, Manager, acquire_call, put, granted_row, blocked, current, try_acquire, renew,
  release, lease_holder, held, perform,
}

blocked_iff_current :
    (r : Option Row) (holder : Text) (now : ℕ)
    → (blocked r holder now ≡ false) ↔ ((h : Text) → current r now ≡ some h → h ≡ holder)
blocked_iff_current none holder now = (λ e h c. cc, λ all. refl)
blocked_iff_current (some r) holder now = (
  λ free h c. ground (arith, same_text_iff r.holder holder),
  λ only. ground (arith, same_text_iff r.holder holder, only r.holder),
)

-- An acquisition succeeds exactly when no other instance holds the lease at that time.
pub try_acquire_iff :
    (t : Leases) (id holder : Text) (ttl now : ℕ)
    → ((try_acquire t id holder ttl now).0.acquired ≡ true)
      ↔ ((h : Text) → lease_holder t id now ≡ some h → h ≡ holder)
unfolding try_acquire lease_holder
try_acquire_iff t id holder ttl now =
    let (to, from) = blocked_iff_current (t id) holder now in
    (λ won. to (ground arith), λ only. rw (from only))

takes :
    (t : Leases) (m : Manager) (now : ℕ)
    → lease_holder t m.lease_id now ≡ none
    → perform m (acquire_call now) t m.lease_id ≡ some (granted_row m.holder_id m.ttl now)
unfolding perform lease_holder
takes t m now free =
    let open_to_all = (blocked_iff_current (t m.lease_id) m.holder_id now).1 (λ h c. cc) in
    rw (open_to_all, perform, try_acquire, put) (rw (text_self m.lease_id))

-- When a lease has expired a standby acquires it and holds it until its own time is up; the instance
-- that had it before holds it no more, and can neither renew nor release it.
pub takeover :
    (t : Leases) (old standby : Manager) (now later : ℕ)
    → old.lease_id ≡ standby.lease_id
    → old.holder_id ≢ standby.holder_id
    → lease_holder t standby.lease_id now ≡ none
    → later < now + standby.ttl
    → let t' = perform standby (acquire_call now) t in
      (held standby t' later ≡ true)
      × (held old t' later ≡ false)
      × ((at : ℕ)
          → renew t' old.lease_id old.holder_id old.ttl at
            ≡ (record { renewed = false; holder = some standby.holder_id }, t'))
      × (release t' old.lease_id old.holder_id ≡ (false, t'))
unfolding held renew release
takeover t old standby now later same apart free early =
    let row = takes t standby now free in
    let live = lt→ltb later (now + standby.ttl) early in
    let gone = text_ne standby.holder_id old.holder_id (λ e. apart (sym e)) in
    (
      rw (row, live) (text_self standby.holder_id),
      rw (same, row, live) gone,
      λ at. rw (same, row, gone),
      rw (same, row, gone),
    )
