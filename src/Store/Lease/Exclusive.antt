-- ===== src/Store/Lease/Exclusive.antt =====
-- While a lease is live, nobody but its holder can change it: there is one writer at a time.
use cyberware.Prelude.{
  ℕ, ◌+◌, ◌<◌, ◌≡◌, ◌≢◌, refl, sym, ◌∙◌, true, false, some, List, [], ◌∷◌, Text, same_text_iff,
  text_self, text_ne, lt→ltb, arith,
}
use cyberware.Store.Lease.{
  Row, Leases, Manager, Call, acquire_call, renew_call, release_call, granted_row, try_acquire,
  held, perform, perform_all,
}

-- The time at which a call looks at the table; a release looks at no time.
abbrev pub Before : ℕ → Call → Type 0
Before exp (acquire_call now) = now < exp
Before exp (renew_call now) = Unit
Before exp release_call = Unit

-- Every call is by an instance other than `holder`, and acquisitions are tried before `exp`.
abbrev pub Others : Text → ℕ → List (Manager × Call) → Type 0
Others holder exp [] = Unit
Others holder exp ((m, c) ∷ cs) = (m.holder_id ≢ holder) × Before exp c × Others holder exp cs

-- The row of a lease that `holder` has until `exp`.
abbrev pub HeldUntil : Leases → Text → Text → ℕ → Type 0
HeldUntil t id holder exp =
    (r : Row) × (t id ≡ some r) × (r.holder ≡ holder) × (r.expires_at ≡ some exp)

perform-keeps :
    (t : Leases) (id holder : Text) (exp : ℕ) (m : Manager) (c : Call)
    → HeldUntil t id holder exp
    → m.holder_id ≢ holder
    → Before exp c
    → perform m c t id ≡ t id
unfolding perform
perform-keeps t id holder exp m (acquire_call now) (r, row, own, until) other early =
    ground (arith, same_text_iff m.lease_id id, same_text_iff r.holder m.holder_id)
perform-keeps t id holder exp m (renew_call now) (r, row, own, until) other early =
    ground (arith, same_text_iff m.lease_id id, same_text_iff r.holder m.holder_id)
perform-keeps t id holder exp m release_call (r, row, own, until) other early =
    ground (arith, same_text_iff m.lease_id id, same_text_iff r.holder m.holder_id)

-- Whatever other instances do with the table before the lease expires, in any order, its row stays.
pub perform_all-keeps :
    (cs : List (Manager × Call)) (t : Leases) (id holder : Text) (exp : ℕ)
    → HeldUntil t id holder exp
    → Others holder exp cs
    → perform_all cs t id ≡ t id
unfolding perform_all
perform_all-keeps [] t id holder exp h o = refl
perform_all-keeps ((m, c) ∷ cs) t id holder exp h o =
    let kept = perform-keeps t id holder exp m c h o.0 o.1 in
    let (r, row, own, until) = h in
    perform_all-keeps cs (perform m c t) id holder exp (r, kept ∙ row, own, until) o.2 ∙ kept

acquired_row :
    (t : Leases) (m : Manager) (now : ℕ)
    → (try_acquire t m.lease_id m.holder_id m.ttl now).0.acquired ≡ true
    → HeldUntil (perform m (acquire_call now) t) m.lease_id m.holder_id (now + m.ttl)
unfolding perform
acquired_row t m now won =
    (granted_row m.holder_id m.ttl now, ground (arith, text_self m.lease_id), refl, refl)

-- An instance that has acquired the lease at time `now` holds it at every time before `now + ttl`,
-- whatever calls others make in between (acquisitions tried before then, renewals and releases at any
-- time), and no other instance on that lease holds it.
pub held-exclusive :
    (t : Leases) (m other : Manager) (now later : ℕ) (cs : List (Manager × Call))
    → (try_acquire t m.lease_id m.holder_id m.ttl now).0.acquired ≡ true
    → Others m.holder_id (now + m.ttl) cs
    → later < now + m.ttl
    → other.lease_id ≡ m.lease_id
    → other.holder_id ≢ m.holder_id
    → let t' = perform_all cs (perform m (acquire_call now) t) in
      (held m t' later ≡ true) × (held other t' later ≡ false)
unfolding held
held-exclusive t m other now later cs won o early same apart =
    let h = acquired_row t m now won in
    let (r, row, own, until) = h in
    let kept =
      perform_all-keeps cs (perform m (acquire_call now) t) m.lease_id m.holder_id (now + m.ttl) h o
      ∙ row in
    let live = lt→ltb later (now + m.ttl) early in
    (
      rw (kept, until, live, own) (text_self m.holder_id),
      rw (same, kept, until, live, own) (text_ne m.holder_id other.holder_id (λ e. apart (sym e))),
    )
