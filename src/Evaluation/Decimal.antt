-- ===== src/Evaluation/Decimal.antt =====
-- Python's `Decimal` under the default context: 28 significant digits, rounded half to even. A
-- finite value is `coef` times ten to the power `exp`. The sign of a zero and trailing zeros of a
-- quotient, which no comparison sees, are not kept, and exponents are not bounded.
use execution_auto.Base.{
  ℕ, zero, suc, ◌+◌, ◌-◌, ◌*◌, ◌/◌, ◌%◌, ◌^◌, Bool, not, ◌&&◌, ◌||◌, ltb, leb, ◌==◌, if◌then◌else◌,
  ℤ, pos, pos_part, neg_part, ◌+ℤ◌, ◌-ℤ◌, ◌*ℤ◌, leb_ℤ, eq_ℤ, abs_ℤ, with_sign,
}

pub record Decimal : Type 0 where
  pub coef : ℤ
  pub exp : ℤ

-- `Decimal(n)`: exact, whatever the size.
abbrev pub of_int : ℤ → Decimal
of_int n = record { coef = n; exp = pos 0 }

-- The coefficient of `a` at the smaller of the two exponents.
unfoldable pub aligned : Decimal → Decimal → ℤ
unfolding ◌-ℤ◌ ◌*ℤ◌
aligned a b = a.coef *ℤ pos (10 ^ pos_part (a.exp -ℤ b.exp))

-- `a <= b` and `a == b` are exact.
unfoldable pub le : Decimal → Decimal → Bool
unfolding aligned
le a b = leb_ℤ (aligned a b) (aligned b a)

unfoldable pub eq : Decimal → Decimal → Bool
unfolding aligned
eq a b = eq_ℤ (aligned a b) (aligned b a)

abbrev pub lower_exp : Decimal → Decimal → ℤ
lower_exp a b = if leb_ℤ a.exp b.exp then a.exp else b.exp

abbrev pub precision : ℕ
precision = 28

-- The number of decimal digits of a positive `n`, on fuel; zero has one.
digit_count_from : ℕ → ℕ → ℕ
digit_count_from zero n = 1
digit_count_from (suc f) n =
    let rest = digit_count_from f (n / 10) in if leb n 9 then 1 else rest + 1

unfoldable pub digit_count : ℕ → ℕ
unfolding digit_count_from
digit_count n = digit_count_from n n

-- n / 10^k, half to even
unfoldable pub shorten : ℕ → ℕ → ℕ
shorten n k =
    let m = 10 ^ k in
    let q = n / m in
    let r = n % m in if ltb m (2 * r) || (2 * r == m && q % 2 == 1) then q + 1 else q

-- The context's rounding; a carry into one digit more is shortened again, exactly.
unfoldable pub round_context : Decimal → Decimal
unfolding digit_count shorten ◌+ℤ◌
round_context d =
    let n = abs_ℤ d.coef in
    let excess = digit_count n - precision in
    let q = shorten n excess in
    if leb (digit_count n) precision
    then d
    else if q == 10 ^ precision
    then record { coef = with_sign d.coef (q / 10); exp = d.exp +ℤ pos (excess + 1) }
    else record { coef = with_sign d.coef q; exp = d.exp +ℤ pos excess }

-- `a - b`
unfoldable pub sub : Decimal → Decimal → Decimal
unfolding aligned round_context ◌-ℤ◌
sub a b = round_context (record { coef = aligned a b -ℤ aligned b a; exp = lower_exp a b })

-- `abs(a)`
unfoldable pub abs : Decimal → Decimal
unfolding round_context
abs a = round_context (record { coef = pos (abs_ℤ a.coef); exp = a.exp })

-- `a * b`
unfoldable pub mul : Decimal → Decimal → Decimal
unfolding round_context ◌+ℤ◌ ◌*ℤ◌
mul a b = round_context (record { coef = a.coef *ℤ b.coef; exp = a.exp +ℤ b.exp })

-- A quotient that is not exact gets a last digit that no rounding half to even can mistake.
abbrev sticky : ℕ → ℕ → ℕ
sticky q rem = if not (rem == 0) && q % 5 == 0 then q + 1 else q

-- `a / b` where `b` is not zero
unfoldable pub div : Decimal → Decimal → Decimal
unfolding round_context digit_count ◌+ℤ◌ ◌-ℤ◌ ◌*ℤ◌
div a b =
    let n = abs_ℤ a.coef in
    let m = abs_ℤ b.coef in
    let shift = pos (digit_count m + precision + 1) -ℤ pos (digit_count n) in
    let num = n * 10 ^ pos_part shift in
    let den = m * 10 ^ neg_part shift in
    let q = sticky (num / den) (num % den) in
    round_context (record { coef = with_sign (a.coef *ℤ b.coef) q; exp = a.exp -ℤ b.exp -ℤ shift })

unfoldable pub is_zero_decimal : Decimal → Bool
is_zero_decimal d = eq_ℤ d.coef (pos 0)

-- `d == d.to_integral_value()`
unfoldable pub is_integral : Decimal → Bool
is_integral d = abs_ℤ d.coef % 10 ^ neg_part d.exp == 0

-- `int(d)` where `d` is integral
unfoldable pub to_int : Decimal → ℤ
to_int d = with_sign d.coef (abs_ℤ d.coef * 10 ^ pos_part d.exp / 10 ^ neg_part d.exp)

abbrev pub hundred : Decimal
hundred = of_int (pos 100)

abbrev pub zero_decimal : Decimal
zero_decimal = of_int (pos 0)
