-- ===== src/Tests/Settle/Dust.antt =====
-- Tests of the boundary in cents.
use cyberware.Prelude.{◌≡◌, ◌≢◌, refl, ℤ, pos, ◌+ℤ◌, ◌*ℤ◌, codes, ok, err, arith, ◌^◌}
use cyberware.Settle.Money.{invalid_operation}
use cyberware.Settle.RewardLedger.{Ledger, balance_of}
use cyberware.Settle.RewardLedger.Reached.{Reached}
use cyberware.Settle.Dust.{dust_account, to_minor, settle_at_boundary}
use cyberware.Settle.Dust.Boundary.{Crossing, settle_at_boundary-Reached}
use cyberware.Tests.Settle.{digests, usd, funded_one, funded_one-Reached, short_100}

-- Half a cent goes to the even neighbour: 0.1250 is 12 cents, 0.1350 is 14. An amount whose cents have more
-- than 28 digits is refused.
half_cents :
    (to_minor (usd 1250) ≡ ok (pos 12))
    × (to_minor (usd 1350) ≡ ok (pos 14))
    × (to_minor (usd (10 ^ 30)) ≡ err invalid_operation)
unfolding to_minor
half_cents = (refl, refl, refl)

ann_apart : codes "ann" ≢ dust_account (codes "psp")
unfolding dust_account
ann_apart h = ground arith

ben_apart : codes "ben" ≢ dust_account (codes "psp")
unfolding dust_account
ben_apart h = ground arith

settle_at_boundary-Reached_example :
    (after : Ledger) × (n : ℤ) × (x : ℤ) × (settle_at_boundary digests funded_one
        (codes "ann")
        (codes "ben")
        (usd 100)
        (codes "psp")
        (codes "boundary:psp")
      ≡ ok after)
    × Reached digests (codes "run") (codes "plan") after
    × Crossing (pos 100) n x
    × (balance_of (codes "ben") (codes "USD") after
        ≡ balance_of (codes "ben") (codes "USD") funded_one +ℤ n *ℤ pos 100)
    × (balance_of (dust_account (codes "psp")) (codes "USD") after
        ≡ balance_of (dust_account (codes "psp")) (codes "USD") funded_one +ℤ x)
settle_at_boundary-Reached_example =
    settle_at_boundary-Reached digests (codes "run") (codes "plan") funded_one-Reached (codes "ann")
      (codes "ben") (codes "psp") (codes "boundary:psp") (usd 100) short_100 (λ h. ground arith)
      ben_apart ann_apart
