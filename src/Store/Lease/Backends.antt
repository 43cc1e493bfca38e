-- ===== src/Store/Lease/Backends.antt =====
-- The two backends implement one lease: they agree on every table that the calls can reach.
use cyberware.Prelude.{
  ℕ, ◌≡◌, ◌≢◌, refl, not, Option, none, some, List, [], ◌∷◌, Text, same_text_iff, arith, Bool-cases,
  inl, inr,
}
use cyberware.Store.Lease.{
  Row, Leases, Manager, Call, acquire_call, renew_call, release_call, blocked, may_update,
  try_acquire, try_acquire_pg, perform, perform_all,
}

-- No row has a NULL expiry.
abbrev pub HasExpiries : Leases → Type 0
HasExpiries t = (id : Text) (r : Row) → t id ≡ some r → r.expires_at ≢ none

pub perform-HasExpiries :
    (m : Manager) (c : Call) (t : Leases) → HasExpiries t → HasExpiries (perform m c t)
unfolding perform
perform-HasExpiries m (acquire_call now) t h id r e =
    ground (arith, h id r, same_text_iff m.lease_id id)
perform-HasExpiries m (renew_call now) t h id r e =
    ground (arith, h id r, same_text_iff m.lease_id id)
perform-HasExpiries m release_call t h id r e = ground (arith, h id r, same_text_iff m.lease_id id)

perform_all-HasExpiries :
    (cs : List (Manager × Call)) (t : Leases) → HasExpiries t → HasExpiries (perform_all cs t)
unfolding perform_all
perform_all-HasExpiries [] t h = h
perform_all-HasExpiries ((m, c) ∷ cs) t h =
    perform_all-HasExpiries cs (perform m c t) (perform-HasExpiries m c t h)

tests_agree :
    (r : Option Row) (holder : Text) (now : ℕ)
    → ((q : Row) → r ≡ some q → q.expires_at ≢ none)
    → may_update r holder now ≡ not (blocked r holder now)
tests_agree none holder now h = refl
tests_agree (some r) holder now h = ground (arith, h r refl)

agree :
    (t : Leases) (id holder : Text) (ttl now : ℕ)
    → ((r : Row) → t id ≡ some r → r.expires_at ≢ none)
    → try_acquire_pg t id holder ttl now ≡ try_acquire t id holder ttl now
unfolding try_acquire_pg try_acquire
agree t id holder ttl now h = elim (Bool-cases (blocked (t id) holder now)) [
  | inl stopped ↦ rw (tests_agree (t id) holder now h, stopped)
  | inr free ↦ rw (tests_agree (t id) holder now h, free)
]

-- After any calls on a fresh table, the conditional upsert of the Postgres backend and the guarded
-- transaction of the SQLite backend give the same answer and the same table.
pub try_acquire_pg-eq-try_acquire :
    (cs : List (Manager × Call)) (id holder : Text) (ttl now : ℕ)
    → let t = perform_all cs (λ j. none) in
      try_acquire_pg t id holder ttl now ≡ try_acquire t id holder ttl now
try_acquire_pg-eq-try_acquire cs id holder ttl now =
    agree (perform_all cs (λ j. none)) id holder ttl now
      (perform_all-HasExpiries cs (λ j. none) (λ j r e. cc) id)
