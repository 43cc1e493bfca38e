-- ===== src/Store/Lease.antt =====
-- The single-writer lease: the `leases` table of infra/store/backend.py with its four atomic
-- transactions, in the SQLite form and in the Postgres form, and `LeaseManager` of
-- infra/govern/lease.py. The table is a map from lease ids to rows; a transaction is one function.
-- Times are natural numbers of a clock tick; `now` is always passed in.
pub mod Exclusive
pub mod Backends
pub mod Failover
use cyberware.Prelude.{
  ℕ, ◌+◌, Bool, true, false, not, ◌&&◌, ◌||◌, Option, none, some, List, [], ◌∷◌, Text, codes,
  same_text, ltb, leb, if◌then◌else◌,
}

-- `expires_at` may be NULL in the table.
pub record Row : Type 0 where
  pub holder : Text
  pub expires_at : Option ℕ
  pub acquired_at : ℕ

abbrev pub Leases : Type 0
Leases = Text → Option Row

pub record Acquired : Type 0 where
  pub acquired : Bool
  pub holder : Option Text
  pub expires_at : Option ℕ

pub record Renewed : Type 0 where
  pub renewed : Bool
  pub holder : Option Text

unfoldable pub put : Text → Option Row → Leases → Leases
put id r t = λ j. if same_text id j then r else t j

-- `row[1] is not None and row[1] > now`
abbrev pub is_live : ℕ → Option ℕ → Bool
is_live now none = false
is_live now (some exp) = ltb now exp

abbrev pub granted_row : Text → ℕ → ℕ → Row
granted_row holder ttl now = record {
  holder = holder;
  expires_at = some (now + ttl);
  acquired_at = now;
}

abbrev pub taken : Text → ℕ → ℕ → Acquired
taken holder ttl now = record {
  acquired = true;
  holder = some holder;
  expires_at = some (now + ttl);
}

abbrev holder_in : Option Row → Option Text
holder_in none = none
holder_in (some r) = some r.holder

abbrev expiry_in : Option Row → Option ℕ
expiry_in none = none
expiry_in (some r) = r.expires_at

-- Whether a live other holder has the lease.
abbrev pub blocked : Option Row → Text → ℕ → Bool
blocked none holder now = false
blocked (some r) holder now = not (same_text r.holder holder) && is_live now r.expires_at

-- `SqliteWalBackend.try_acquire_lease`
unfoldable pub try_acquire : Leases → Text → Text → ℕ → ℕ → Acquired × Leases
unfolding put
try_acquire t id holder ttl now =
    if blocked (t id) holder now
    then (record { acquired = false; holder = holder_in (t id); expires_at = expiry_in (t id) }, t)
    else (taken holder ttl now, put id (some (granted_row holder ttl now)) t)

abbrev pub holds : Option Row → Text → Bool
holds none holder = false
holds (some r) holder = same_text r.holder holder

abbrev extended : Option Row → ℕ → Option Row
extended none exp = none
extended (some r) exp = some (record r { expires_at = some exp })

-- `renew_lease`: the expiry of the row is not looked at.
unfoldable pub renew : Leases → Text → Text → ℕ → ℕ → Renewed × Leases
unfolding put
renew t id holder ttl now =
    if holds (t id) holder
    then (record { renewed = true; holder = some holder }, put id (extended (t id) (now + ttl)) t)
    else (record { renewed = false; holder = holder_in (t id) }, t)

-- `release_lease`
unfoldable pub release : Leases → Text → Text → Bool × Leases
unfolding put
release t id holder = if holds (t id) holder then (true, put id none t) else (false, t)

-- `row is None or row[1] is None or row[1] <= now`
abbrev pub current : Option Row → ℕ → Option Text
current none now = none
current (some r) now = if is_live now r.expires_at then some r.holder else none

-- `lease_holder`
unfoldable pub lease_holder : Leases → Text → ℕ → Option Text
lease_holder t id now = current (t id) now

abbrev pub lapsed : Option ℕ → ℕ → Bool
lapsed none now = false
lapsed (some exp) now = leb exp now

-- `expires_at <= now OR holder_id = mine`, where a comparison with NULL is not true.
abbrev pub may_update : Option Row → Text → ℕ → Bool
may_update none holder now = true
may_update (some r) holder now = lapsed r.expires_at now || same_text r.holder holder

-- `PsycopgBackend.try_acquire_lease`, with the backend configured.
unfoldable pub try_acquire_pg : Leases → Text → Text → ℕ → ℕ → Acquired × Leases
unfolding put
try_acquire_pg t id holder ttl now =
    if may_update (t id) holder now
    then (taken holder ttl now, put id (some (granted_row holder ttl now)) t)
    else (record { acquired = false; holder = holder_in (t id); expires_at = expiry_in (t id) }, t)

-- `LeaseManager`
pub record Manager : Type 0 where
  pub lease_id : Text
  pub holder_id : Text
  pub ttl : ℕ

abbrev is_holder : Option Text → Text → Bool
is_holder none h = false
is_holder (some g) h = same_text g h

unfoldable pub held : Manager → Leases → ℕ → Bool
unfolding lease_holder
held m t now = is_holder (lease_holder t m.lease_id now) m.holder_id

-- The calls that an instance makes on the shared table.
pub data Call : Type 0 where
  acquire_call renew_call : ℕ → Call
  release_call : Call

unfoldable pub perform : Manager → Call → Leases → Leases
unfolding try_acquire renew release
perform m (acquire_call now) t = (try_acquire t m.lease_id m.holder_id m.ttl now).1
perform m (renew_call now) t = (renew t m.lease_id m.holder_id m.ttl now).1
perform m release_call t = (release t m.lease_id m.holder_id).1

-- Calls of several instances in the order in which the store serializes them.
unfoldable pub perform_all : List (Manager × Call) → Leases → Leases
unfolding perform
perform_all [] t = t
perform_all ((m, c) ∷ cs) t = perform_all cs (perform m c t)
