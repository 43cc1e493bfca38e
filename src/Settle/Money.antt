-- ===== src/Settle/Money.antt =====
-- infra/settle/money.py: exact decimal amounts of scale 4. An amount is held as an integer number
-- of units of 0.0001. Decimals are a coefficient over a power of ten (`Decimal`); NaN and the
-- infinities are not modelled. `Decimal(str)` of the standard library is the parameter `parse`.
pub mod Decimal
pub mod Rounding
pub mod Exact
pub mod Split
unfoldable pub use Decimal.*
use cyberware.Prelude.{
  ℕ, ◌+◌, Bool, true, false, not, Option, none, some, ℤ, pos, ◌+ℤ◌, ◌-ℤ◌, ◌*ℤ◌, ltb_ℤ, leb_ℤ, eqb_ℤ,
  is_zero, Text, same_text, Result, ok, err, ◌>>=◌, if◌then◌else◌, ◌&&◌,
}

pub data MoneyError : Type 0 where
  type_error invalid_operation currency_mismatch bad_weights zero_weights : MoneyError

-- The argument of `Money(...)`, by its Python type.
pub data Amount : Type 0 where
  bool_value : Bool → Amount
  float_value : Amount
  decimal_value : Scaled → Amount
  int_value : ℤ → Amount
  str_value : Text → Amount
  other_value : Amount

pub record Money : Type 0 where
  pub amount : ℤ
  pub currency : Text

parsed : Option Scaled → Result MoneyError Scaled
parsed none = err invalid_operation
parsed (some d) = ok d

unfoldable pub to_decimal : (Text → Option Scaled) → Amount → Result MoneyError Scaled
unfolding parsed
to_decimal parse (bool_value b) = err type_error
to_decimal parse float_value = err type_error
to_decimal parse (decimal_value d) = ok d
to_decimal parse (int_value n) = ok (record { coeff = n; places = 0 })
to_decimal parse (str_value s) = parsed (parse s)
to_decimal parse other_value = err type_error

-- `_q`: the quantized coefficient must have at most 34 digits.
unfoldable pub quantize : Scaled → Result MoneyError ℤ
quantize d = let u = to_units d in if has_digits context_prec u then ok u else err invalid_operation

unfoldable pub make : (Text → Option Scaled) → Amount → Text → Result MoneyError Money
unfolding to_decimal quantize
make parse a currency = do
  d ← to_decimal parse a
  u ← quantize d
  ok (record { amount = u; currency = currency })

-- `Money(d, currency)` of a decimal, the last step of every operation.
unfoldable pub of_units : Scaled → Text → Result MoneyError Money
unfolding quantize
of_units d currency = do u ← quantize d; ok (record { amount = u; currency = currency })

abbrev pub at_scale : ℤ → Scaled
at_scale u = record { coeff = u; places = 4 }

unfoldable pub add : Money → Money → Result MoneyError Money
unfolding of_units
add a b =
    if same_text b.currency a.currency
    then of_units (at_scale (significant context_prec (a.amount +ℤ b.amount))) a.currency
    else err currency_mismatch

unfoldable pub subtract : Money → Money → Result MoneyError Money
unfolding of_units
subtract a b =
    if same_text b.currency a.currency
    then of_units (at_scale (significant context_prec (a.amount -ℤ b.amount))) a.currency
    else err currency_mismatch

-- `__neg__` is Python's unary minus, which rounds to the 28 digits of the default context.
unfoldable pub neg : Money → Result MoneyError Money
unfolding of_units
neg a = of_units (at_scale (unary_minus a.amount)) a.currency

unfoldable pub scale : (Text → Option Scaled) → Money → Amount → Result MoneyError Money
unfolding of_units to_decimal
scale parse a ratio = do
  r ← to_decimal parse ratio
  of_units
      (record { coeff = significant context_prec (a.amount *ℤ r.coeff); places = 4 + r.places })
      a.currency

unfoldable pub less : Money → Money → Result MoneyError Bool
less a b =
    if same_text b.currency a.currency then ok (ltb_ℤ a.amount b.amount) else err currency_mismatch

unfoldable pub less_or_equal : Money → Money → Result MoneyError Bool
less_or_equal a b =
    if same_text b.currency a.currency then ok (leb_ℤ a.amount b.amount) else err currency_mismatch

unfoldable pub equal : Money → Money → Bool
equal a b = same_text b.currency a.currency && eqb_ℤ b.amount a.amount
