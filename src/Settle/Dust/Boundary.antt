-- ===== src/Settle/Dust/Boundary.antt =====
-- Nothing is made or lost at the boundary.
use cyberware.Prelude.{
  ◌⊎◌, inl, inr, ℕ, suc, ◌+◌, ◌*◌, ◌%◌, ◌^◌, ltb, ◌≤◌, ◌≡◌, ◌≢◌, refl, sym, ◌∙◌, ap, Bool, true,
  false, List, [], ◌∷◌, map, ℤ, pos, negsuc, pos_part, neg_part, negate, ◌+ℤ◌, ◌-ℤ◌, ◌*ℤ◌, is_zero,
  is_zero_iff, Text, text_self, text_ne, ok, paid, if◌then◌else◌, arith, int_laws, text_eq, pair_eq,
}
use cyberware.Cwp.Chain.{Digests}
use cyberware.Settle.Money.{Money}
use cyberware.Settle.Money.Decimal.{
  round_half_even, round_signed, default_prec, has_digits, unary_minus,
}
use cyberware.Settle.Money.Exact.{unary_minus_exact}
use cyberware.Settle.Money.Rounding.{round_half_even-nearest, round_half_even-tie}
use cyberware.Settle.RewardLedger.{
  PostingSet, Posting, Ledger, posting, minus, by_account, is_balanced, balance_of,
}
use cyberware.Settle.RewardLedger.Balances.{balance_of-post}
use cyberware.Settle.RewardLedger.Conserve.{is_balanced_of_sum}
use cyberware.Settle.RewardLedger.Reached.{Reached, post-Reached}
use cyberware.Settle.Dust.{
  dust_account, cents_of, parts_of, split_cents, cents_postings, boundary_posting, post_made,
  settle_at_boundary,
}

-- Rounding a magnitude to a hundred moves it by at most fifty, and by fifty only to an even number.
near : (n : ℕ) → (n ≤ round_half_even n 100 * 100 + 50) × (round_half_even n 100 * 100 ≤ n + 50)
near n = omega (arith, round_half_even-nearest n 100 (omega arith))

small_quotient : (n : ℕ) → ltb n (10 ^ 28) ≡ true → ltb (round_half_even n 100) (10 ^ 28) ≡ true
small_quotient n h = ground (arith, near n)

-- How an amount of `u` units crosses: `n` cents and `x` units of dust, at most half a cent either way,
-- and half a cent only where the number of cents is even.
pub record Crossing (u n x : ℤ) : Type 0 where
  pub whole : n *ℤ pos 100 +ℤ x ≡ u
  pub over : pos_part x ≤ 50
  pub under : neg_part x ≤ 50
  pub even : pos_part x + neg_part x ≡ 50 → (pos_part n + neg_part n) % 2 ≡ 0

even_near :
    (n : ℕ)
    → (n ≡ round_half_even n 100 * 100 + 50) ⊎ (round_half_even n 100 * 100 ≡ n + 50)
    → round_half_even n 100 % 2 ≡ 0
even_near n h = round_half_even-tie n 100 (omega arith) (half h)
  where
    half :
        (n ≡ round_half_even n 100 * 100 + 50) ⊎ (round_half_even n 100 * 100 ≡ n + 50)
        → 2 * (n % 100) ≡ 100
    half (inl e) = omega arith
    half (inr e) = omega arith

rounded-Crossing : (u : ℤ) → Crossing u (round_signed u 100) (u -ℤ round_signed u 100 *ℤ pos 100)
unfolding round_signed ◌-ℤ◌ ◌*ℤ◌ negate
rounded-Crossing (pos n) = record {
  whole = omega int_laws;
  over = ground (arith, near n);
  under = ground (arith, near n);
  even = λ h. ground (arith, even_near n, near n);
}
rounded-Crossing (negsuc n) = record {
  whole = omega int_laws;
  over = ground (arith, near (suc n));
  under = ground (arith, near (suc n));
  even = λ h. ground (arith, even_near (suc n), near (suc n));
}

rounded-short :
    (u : ℤ) → has_digits default_prec u ≡ true → has_digits default_prec (round_signed u 100) ≡ true
unfolding round_signed has_digits negate
rounded-short (pos n) h = ground (arith, small_quotient n)
rounded-short (negsuc n) h = ground (arith, small_quotient (suc n))

module _ (payer dest adapter_id currency : Text) where
  -- The postings of a transfer of `a`, of which `c` are cents and `x` is dust.
  abbrev shape : Bool → ℤ → ℤ → ℤ → List Posting
  shape no_dust a c x =
      posting payer (minus (record { amount = a; currency = currency }))
      ∷ posting dest (record { amount = c; currency = currency })
      ∷ (if no_dust
          then []
          else posting (dust_account adapter_id) (record { amount = x; currency = currency }) ∷ [])

  shape-balanced :
      (no_dust : Bool) (a c x : ℤ)
      → c +ℤ x ≡ a
      → unary_minus a ≡ negate a
      → is_zero x ≡ no_dust
      → is_balanced (shape no_dust a c x) ≡ true
  shape-balanced true a c x whole e h =
      let gone = (is_zero_iff x).0 h in
      is_balanced_of_sum currency (shape true a c x) (refl, (refl, tt))
        (omega (
          int_laws,
          ap pos_part whole,
          ap neg_part whole,
          ap pos_part e,
          ap neg_part e,
          ap pos_part gone,
          ap neg_part gone,
        ))
  shape-balanced false a c x whole e h =
      is_balanced_of_sum currency (shape false a c x) (refl, (refl, (refl, tt)))
        (omega (int_laws, ap pos_part whole, ap neg_part whole, ap pos_part e, ap neg_part e))

  paid-dest :
      (no_dust : Bool) (a c x : ℤ)
      → payer ≢ dest
      → dust_account adapter_id ≢ dest
      → paid (dest, currency) (map by_account (shape no_dust a c x)) ≡ c
  unfolding paid
  paid-dest true a c x p q =
      rw (text_ne payer dest p, text_self dest, text_self currency) (omega int_laws)
  paid-dest false a c x p q =
      rw
        (
          text_ne payer dest p,
          text_ne (dust_account adapter_id) dest q,
          text_self dest,
          text_self currency,
        )
        (omega int_laws)

  paid-dust :
      (no_dust : Bool) (a c x : ℤ)
      → is_zero x ≡ no_dust
      → payer ≢ dust_account adapter_id
      → dest ≢ dust_account adapter_id
      → paid (dust_account adapter_id, currency) (map by_account (shape no_dust a c x)) ≡ x
  unfolding paid
  paid-dust true a c x h p q =
      rw
        (
          text_ne payer (dust_account adapter_id) p,
          text_ne dest (dust_account adapter_id) q,
          (is_zero_iff x).0 h,
        )
        (omega int_laws)
  paid-dust false a c x h p q =
      rw
        (
          text_ne payer (dust_account adapter_id) p,
          text_ne dest (dust_account adapter_id) q,
          text_self (dust_account adapter_id),
          text_self currency,
        )
        (omega int_laws)

module _ (d : Digests PostingSet) (run_id plan_sha : Text) {entries : Ledger}
    (r : Reached d run_id plan_sha entries) (payer dest adapter_id memo : Text)
    (amount : Money) where
  -- On any reached ledger, if the payer, the destination and the dust account are three accounts, a
  -- transfer over the boundary of an amount of at most 28 digits is posted and the ledger stays a reached
  -- one. The destination receives a whole number of cents and the dust account the rest; the rest is at
  -- most half a cent either way, and half a cent only where the number of cents is even.
  pub settle_at_boundary-Reached :
      has_digits default_prec amount.amount ≡ true
      → dest ≢ payer
      → dest ≢ dust_account adapter_id
      → payer ≢ dust_account adapter_id
      → (after : Ledger) × (n : ℤ) × (x : ℤ) × (settle_at_boundary d entries payer dest amount
            adapter_id memo
          ≡ ok after)
        × Reached d run_id plan_sha after
        × Crossing amount.amount n x
        × (balance_of dest amount.currency after
            ≡ balance_of dest amount.currency entries +ℤ n *ℤ pos 100)
        × (balance_of (dust_account adapter_id) amount.currency after
            ≡ balance_of (dust_account adapter_id) amount.currency entries +ℤ x)
  unfolding settle_at_boundary boundary_posting split_cents cents_of post_made
  settle_at_boundary-Reached short dest_apart not_dust payer_apart =
      let n = round_signed amount.amount 100 in
      let parts = parts_of amount n in
      let ps = cents_postings payer dest amount adapter_id parts in
      let crossing = rounded-Crossing amount.amount in
      let cents = parts.0.amount in
      let dust = parts.1.amount in
      let (after, posted, reached) = post-Reached d run_id plan_sha ps memo r (
        shape-balanced payer dest adapter_id amount.currency (is_zero dust) amount.amount cents dust
          crossing.whole (unary_minus_exact amount.amount short) refl) in
      (
        after,
        n,
        dust,
        rw (rounded-short amount.amount short) posted,
        reached,
        crossing,
        balance_of-post d entries ps memo after dest amount.currency posted
            ∙ ap (λ y. balance_of dest amount.currency entries +ℤ y)
                (paid-dest payer dest adapter_id amount.currency (is_zero dust) amount.amount cents
                  dust (λ e. dest_apart (sym e)) (λ e. not_dust (sym e))),
        balance_of-post d entries ps memo after (dust_account adapter_id) amount.currency posted
            ∙ ap (λ y. balance_of (dust_account adapter_id) amount.currency entries +ℤ y)
                (paid-dust payer dest adapter_id amount.currency (is_zero dust) amount.amount cents
                  dust refl payer_apart not_dust),
      )
