-- ===== src/Settle/RewardLedger/Conserve.antt =====
-- Value is only moved: every ledger that `post` builds is zero in every currency.
use cyberware.Prelude.{
  ◌≡◌, refl, sym, ◌∙◌, ap, ◌↔◌, Bool, true, false, List, [], ◌∷◌, map, ℤ, pos, ◌+ℤ◌, Text, same,
  same_iff, all, All, All-append, ok, add, get, collect, paid, get-collect, collect-Distinct,
  zero_entry, zeros_of_get, get_of_zeros, Bool-cases, inl, inr, int_laws, text_eq, pair_eq, Tally,
  if◌then◌else◌,
}
use cyberware.Cwp.Chain.{Digests}
use cyberware.Settle.RewardLedger.{
  Posting, PostingSet, Ledger, Account, is_balanced, post, postings_of, by_account, by_currency,
  currency_of, balances, balances_from, global_zero,
}
use cyberware.Settle.RewardLedger.Balances.{post-Grown}

zero_left : (x : ℤ) → pos 0 +ℤ x ≡ x
zero_left x = omega int_laws

-- A tally of a list is zero throughout exactly when each key is paid zero.
all_zero_iff :
    (xs : List (Text × ℤ))
    → (all zero_entry (collect xs []) ≡ true) ↔ ((c : Text) → paid c xs ≡ pos 0)
unfolding get
all_zero_iff xs = (
  λ h c. sym (zero_left (paid c xs)) ∙ sym (get-collect c xs []) ∙ get_of_zeros c (collect xs []) h,
  λ h.
      zeros_of_get (collect xs []) (collect-Distinct xs [] tt)
        (λ c. get-collect c xs [] ∙ zero_left (paid c xs) ∙ h c),
)

-- A posting set is balanced exactly when its signed amounts sum to zero in every currency.
pub is_balanced_iff :
    (ps : List Posting)
    → (is_balanced ps ≡ true) ↔ ((c : Text) → paid c (map by_currency ps) ≡ pos 0)
unfolding is_balanced
is_balanced_iff ps = all_zero_iff (map by_currency ps)

paid-currency-add :
    (c : Text) (k : Account) (x : ℤ) (bal : Tally Account)
    → paid c (map currency_of (add k x bal))
      ≡ paid c (map currency_of bal) +ℤ (if same k.1 c then x else pos 0)
unfolding add paid
paid-currency-add c k x [] = shift (if same k.1 c then x else pos 0) (same k.1 c) x
  where
    shift :
        (y : ℤ) (b : Bool) (x : ℤ)
        → (if b then pos 0 +ℤ x else pos 0) +ℤ pos 0 ≡ pos 0 +ℤ (if b then x else pos 0)
    shift y true x = omega int_laws
    shift y false x = omega int_laws
paid-currency-add c k x (((a, e), v) ∷ bal) = elim (Bool-cases (same (a, e) k)) [
  | inl found ↦ rw found (merged (same_iff (a, e) k) found)
  | inr other ↦ rw (other, paid-currency-add c k x bal) (omega int_laws)
]
  where
    step :
        (b : Bool) (v x p : ℤ)
        → (if b then v +ℤ x else pos 0) +ℤ p
          ≡ (if b then v else pos 0) +ℤ p +ℤ (if b then x else pos 0)
    step true v x p = omega int_laws
    step false v x p = omega int_laws

    merged :
        ((same (a, e) k ≡ true) ↔ ((a, e) ≡ k))
        → same (a, e) k ≡ true
        → paid c (map currency_of (((a, e), v +ℤ x) ∷ bal))
          ≡ paid c (map currency_of (((a, e), v) ∷ bal)) +ℤ (if same k.1 c then x else pos 0)
    merged iff found =
        rw (ap (λ (y : Account). y.1) (sym (iff.0 found)))
          (step (same e c) v x (paid c (map currency_of bal)))

paid-currency-collect :
    (c : Text) (ps : List Posting) (bal : Tally Account)
    → paid c (map currency_of (collect (map by_account ps) bal))
      ≡ paid c (map currency_of bal) +ℤ paid c (map by_currency ps)
unfolding collect paid
paid-currency-collect c [] bal = omega int_laws
paid-currency-collect c (p ∷ ps) bal =
    paid-currency-collect c ps (add (p.account, p.currency) p.amount bal)
    ∙ rw (paid-currency-add c (p.account, p.currency) p.amount bal) (omega int_laws)

abbrev pub AllBalanced : Ledger → Type 0
AllBalanced = All (λ e. is_balanced (postings_of e) ≡ true)

paid-currency-balances :
    (c : Text) (es : Ledger) (bal : Tally Account)
    → AllBalanced es
    → paid c (map currency_of (balances_from bal es)) ≡ paid c (map currency_of bal)
unfolding balances_from
paid-currency-balances c [] bal h = refl
paid-currency-balances c (e ∷ es) bal h =
    paid-currency-balances c es (collect (map by_account (postings_of e)) bal) h.1
    ∙ paid-currency-collect c (postings_of e) bal
    ∙ rw ((is_balanced_iff (postings_of e)).0 h.0 c) (omega int_laws)

pub global_zero-AllBalanced : (es : Ledger) → AllBalanced es → global_zero es ≡ true
unfolding global_zero balances paid
global_zero-AllBalanced es h =
    (all_zero_iff (map currency_of (balances es))).1 (λ c. paid-currency-balances c es [] h)

pub post-AllBalanced :
    (d : Digests PostingSet) (es after : Ledger) (ps : List Posting) (memo : Text)
    → AllBalanced es
    → post d es ps memo ≡ ok after
    → AllBalanced after
post-AllBalanced d es after ps memo h done =
    let g = post-Grown d es ps memo after done in
    rw g.grown (All-append _ es (g.entry ∷ []) h (rw g.holds g.fits, tt))

abbrev pub amount_sum : List Posting → ℤ
amount_sum [] = pos 0
amount_sum (p ∷ ps) = p.amount +ℤ amount_sum ps

abbrev pub InOneCurrency : Text → List Posting → Type 0
InOneCurrency c = All (λ p. p.currency ≡ c)

paid_one_currency :
    (c k : Text) (ps : List Posting)
    → InOneCurrency c ps
    → paid k (map by_currency ps) ≡ (if same c k then amount_sum ps else pos 0)
unfolding paid
paid_one_currency c k [] h = elim (Bool-cases (same c k)) [ inl e ↦ rw e | inr e ↦ rw e ]
paid_one_currency c k (p ∷ ps) h = elim (Bool-cases (same c k)) [
  | inl e ↦ rw (paid_one_currency c k ps h.1, h.0, e)
  | inr e ↦ rw (paid_one_currency c k ps h.1, h.0, e) (omega int_laws)
]

-- Postings of one currency are balanced if they add up to zero.
pub is_balanced_of_sum :
    (c : Text) (ps : List Posting)
    → InOneCurrency c ps
    → amount_sum ps ≡ pos 0
    → is_balanced ps ≡ true
is_balanced_of_sum c ps h z =
    (is_balanced_iff ps).1 (λ k. paid_one_currency c k ps h ∙ rw z (always_zero (same c k)))
  where
    always_zero : (b : Bool) → (if b then pos 0 else pos 0) ≡ pos 0
    always_zero true = refl
    always_zero false = refl
