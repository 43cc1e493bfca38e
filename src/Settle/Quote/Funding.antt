-- ===== src/Settle/Quote/Funding.antt =====
-- When a priced run is admitted, and that the funding of one quote is not the funding of another.
use cyberware.Prelude.{
  ◌&&◌, negate, if◌then◌else◌, ◌≡◌, ◌↔◌, refl, sym, ◌∙◌, ap, Bool, true, false, Option, none, some,
  List, [], ◌∷◌, any, ℤ, pos, ◌+ℤ◌, ◌≤ℤ◌, Text, codes, take, ◌++◌, same_text, same_text_iff,
  text_self, Result, ok, ok_injective, paid, arith, int_laws, text_eq, pair_eq, eqb_ℤ,
}
use cyberware.Cwp.Chain.{Digests}
use cyberware.Cwp.Envelope.{Envelope, verify_ph}
use cyberware.Settle.Money.{Money}
use cyberware.Settle.Money.Decimal.{default_prec, has_digits}
use cyberware.Settle.Money.Exact.{unary_minus_exact}
use cyberware.Settle.RewardLedger.{
  PostingSet, Ledger, LedgerError, escrow_for, fund_escrow, posting, minus, balance_of,
}
use cyberware.Settle.RewardLedger.Balances.{balance_of-post}
use cyberware.Settle.RewardLedger.Reached.{Reached}
use cyberware.Settle.RewardLedger.Release.{fund_escrow-Reached}
use cyberware.Settle.Quote.{
  Quote, Services, Grant, funded_quote, quote_type, breakdown_total, breakdown_balances,
  verify_quote, is_empty, quote_in, fund_quote, holds_amount, is_funded, grant_for, grant_admits,
}

eqb_self : (a b : ℤ) → a ≡ b → eqb_ℤ a b ≡ true
eqb_self a b h = ground arith

-- What a quote must satisfy for a run of the plan, under the pinned key.
pub record Admits (x : Services) (e : Envelope) (entries : Ledger) (plan_sha key : Text) (q : Quote)
    : Type 0 where
  pub typed : e.payload_type ≡ quote_type
  pub signed : verify_ph x.ph_verify e key ≡ true
  pub carried : x.parse_quote e.payload ≡ some q
  pub exact : breakdown_total (pos 0) q.breakdown ≡ q.amount
  pub planned : q.plan_sha ≡ plan_sha
  pub funded : q.amount ≤ℤ balance_of (escrow_for (x.quote_sha q)) q.currency entries

no_any {ℓ} : {A : Type ℓ} (p : A → Bool) (l : List A) → is_empty l ≡ true → any p l ≡ false
no_any p [] h = refl
no_any p (a ∷ l) h = cc

module _ (x : Services) (e : Envelope) (entries : Ledger) (plan_sha key : Text) where
  abbrev pub granted : Result LedgerError Grant
  granted = ok (record { allow = true; reason = funded_quote })

  has_signature : verify_ph x.ph_verify e key ≡ true → is_empty e.signatures ≡ false
  unfolding verify_ph
  has_signature signed = ground (arith, no_any _ e.signatures)

  verify_quote_if :
      (q : Quote) → Admits x e entries plan_sha key q → verify_quote x e key ≡ (true, some q)
  unfolding verify_quote breakdown_balances
  verify_quote_if q a =
      rw (has_signature a.signed, a.signed, a.typed, text_self quote_type, a.carried)
        (ap (λ (b : Bool). (b, some q)) (eqb_self _ _ a.exact))

  pub funded_of :
      (q : Quote)
      → x.parse_quote e.payload ≡ some q
      → is_funded x entries e ≡ ok (holds_amount x entries q)
  unfolding is_funded quote_in
  funded_of q carried = rw (carried, is_funded, quote_in)

  covered :
      (q : Quote)
      → q.amount ≤ℤ balance_of (escrow_for (x.quote_sha q)) q.currency entries
      → holds_amount x entries q ≡ true
  unfolding holds_amount
  covered q h = ground arith

  Admits-if :
      (q : Quote)
      → Admits x e entries plan_sha key q
      → grant_admits x (some e) entries plan_sha true key ≡ granted
  unfolding grant_admits
  Admits-if q a =
      rw (verify_quote_if q a, grant_for, a.planned, text_self plan_sha)
        (rw (funded_of q a.carried, covered q a.funded))

  pub verify_only_if :
      (q : Quote)
      → verify_quote x e key ≡ (true, some q)
      → (e.payload_type ≡ quote_type)
        × (verify_ph x.ph_verify e key ≡ true)
        × (x.parse_quote e.payload ≡ some q)
        × (breakdown_balances q ≡ true)
  unfolding verify_quote
  verify_only_if q h = ground (arith, same_text_iff e.payload_type quote_type)

  grant_for-granted :
      (r : Bool × Option Quote)
      → grant_for x entries plan_sha e r ≡ granted
      → (q : Quote) × (r ≡ (true, some q))
        × (same_text q.plan_sha plan_sha ≡ true)
        × (is_funded x entries e ≡ ok true)
  unfolding grant_for
  grant_for-granted (false, q) h = cc
  grant_for-granted (true, none) h = cc
  grant_for-granted (true, some q) h = (q, refl, ground arith, ground arith)

  Admits-only_if :
      grant_admits x (some e) entries plan_sha true key ≡ granted
      → (q : Quote) × Admits x e entries plan_sha key q
  unfolding grant_admits breakdown_balances holds_amount
  Admits-only_if h =
      let (q, verified, planned, funded) = grant_for-granted (verify_quote x e key) h in
      let facts = verify_only_if q verified in
      (
        q,
        record {
          typed = facts.0;
          signed = facts.1;
          carried = facts.2;
          exact = exact_of q facts.3;
          planned = (same_text_iff q.plan_sha plan_sha).0 planned;
          funded = funded_only q (ok_injective (sym (funded_of q facts.2) ∙ funded));
        },
      )
    where
      exact_of :
          (q : Quote) → breakdown_balances q ≡ true → breakdown_total (pos 0) q.breakdown ≡ q.amount
      exact_of q h = ground arith

      funded_only :
          (q : Quote)
          → holds_amount x entries q ≡ true
          → q.amount ≤ℤ balance_of (escrow_for (x.quote_sha q)) q.currency entries
      funded_only q h = ground arith

  -- A run of a priced perk is admitted exactly when its envelope is of the quote type, carries a
  -- signature under the pinned key and a quote whose breakdown adds up to its amount, the quote is for
  -- this plan, and the quote's own escrow account holds at least its amount.
  pub grant_admits-Admits :
      (grant_admits x (some e) entries plan_sha true key ≡ granted)
      ↔ ((q : Quote) × Admits x e entries plan_sha key q)
  grant_admits-Admits = (Admits-only_if, λ (q, a). Admits-if q a)

module _ (x : Services) (d : Digests PostingSet) (run_id plan_sha : Text) (funder : Text) where
  -- What a funding moves on an account in a currency: the amount leaves the funder's account and comes to
  -- the quote's own escrow account, in the quote's currency.
  abbrev pub moved_by : Quote → Text → Text → ℤ
  moved_by q a c =
      (if same_text funder a && same_text q.currency c then negate q.amount else pos 0)
      +ℤ (if same_text (escrow_for (x.quote_sha q)) a && same_text q.currency c
          then q.amount
          else pos 0)

  -- On any reached ledger a quote that can be read, of an amount of at most 28 digits, can be funded. The
  -- ledger stays a reached one, and every account moves by what the funding moves on it: the amount leaves
  -- the funder and comes to the quote's own escrow, and no other account changes in any currency.
  pub fund_quote-Moves :
      {es : Ledger} (e : Envelope) (q : Quote)
      → Reached d run_id plan_sha es
      → x.parse_quote e.payload ≡ some q
      → has_digits default_prec q.amount ≡ true
      → (after : Ledger) × (fund_quote x d es funder e ≡ ok after)
        × Reached d run_id plan_sha after
        × ((a c : Text) → balance_of a c after ≡ balance_of a c es +ℤ moved_by q a c)
  unfolding fund_quote fund_escrow paid
  fund_quote-Moves {es} e q r carried short =
      let m : Money = record { amount = q.amount; currency = q.currency } in
      let own = escrow_for (x.quote_sha q) in
      let memo = codes "fund-quote:" ++ take 16 (x.quote_sha q) in
      let ps = posting funder (minus m) ∷ posting own m ∷ [] in
      let (after, posted, reached) =
        fund_escrow-Reached d run_id plan_sha funder own m memo r short in
      (
        after,
        rw (carried, quote_in) posted,
        reached,
        λ a c.
            balance_of-post d es ps memo after a c posted
            ∙ rw (unary_minus_exact q.amount short) (
                ends (balance_of a c es)
                  (if same_text funder a && same_text q.currency c then negate q.amount else pos 0)
                  (if same_text own a && same_text q.currency c then q.amount else pos 0)),
      )
    where
      ends : (b u v : ℤ) → b +ℤ (u +ℤ (v +ℤ pos 0)) ≡ b +ℤ (u +ℤ v)
      ends b u v = omega int_laws
