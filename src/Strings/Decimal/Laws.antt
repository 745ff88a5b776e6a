-- ===== src/Strings/Decimal/Laws.antt =====
-- Reading back what `%d` prints.
use Prim.Native.Nat.{◌/◌, ◌%◌}
use postgresparser.Prelude.{
  ℕ, zero, suc, ◌+◌, ◌≤◌, ◌<◌, ◌≡◌, refl, sym, ap, ◌∙◌, true, false, ◌&&◌, some, [], ◌∷◌, arith,
  Text, ltb, leb, Bool-cases, inl, inr,
}
use postgresparser.Strings.Decimal.{
  pos, max_int, digits_value, magnitude, as_positive, atoi, digits, decimal,
}

digits_value-last :
    (n : ℕ) (rest : Text) → digits_value (n / 10) ((b'0' + n % 10) ∷ rest) ≡ digits_value n rest
unfolding digits_value
digits_value-last n rest = ground arith

one_digit :
    (n : ℕ) (rest : Text)
    → ltb n 10 ≡ true
    → digits_value 0 ((b'0' + n) ∷ rest) ≡ digits_value n rest
unfolding digits_value
one_digit n rest e = ground arith

fewer : (n fuel : ℕ) → n < suc fuel → ltb n 10 ≡ false → n / 10 < fuel
fewer n fuel h e = ground arith

digits_value-digits :
    (fuel n : ℕ) (rest : Text)
    → n < fuel
    → digits_value 0 (digits fuel n rest) ≡ digits_value n rest
unfolding digits
digits_value-digits zero n rest h = elim h [ ]
digits_value-digits (suc fuel) n rest h = elim (Bool-cases (ltb n 10)) [
  | inl e ↦ rw e (one_digit n rest e)
  | inr e ↦ rw e (
      digits_value-digits fuel (n / 10) ((b'0' + n % 10) ∷ rest) (fewer n fuel h e)
      ∙ digits_value-last n rest)
]

one_digit_range : (n : ℕ) → ltb n 10 ≡ true → (leb b'0' (b'0' + n) && leb (b'0' + n) b'9') ≡ true
one_digit_range n e = ground arith

-- The digits of a number start with a digit.
digits_first :
    (fuel n : ℕ) (rest : Text)
    → n < fuel
    → (c : ℕ) × (s : Text) × (digits fuel n rest ≡ c ∷ s) × ((leb b'0' c && leb c b'9') ≡ true)
unfolding digits
digits_first zero n rest h = elim h [ ]
digits_first (suc fuel) n rest h = elim (Bool-cases (ltb n 10)) [
  | inl e ↦ (b'0' + n, rest, rw e refl, one_digit_range n e)
  | inr e ↦ rw e (digits_first fuel (n / 10) ((b'0' + n % 10) ∷ rest) (fewer n fuel h e))
]

value_end : (n : ℕ) → digits_value n [] ≡ some n
unfolding digits_value
value_end n = refl

atoi_digits :
    (c : ℕ) (s : Text) (n : ℕ)
    → (leb b'0' c && leb c b'9') ≡ true
    → digits_value 0 (c ∷ s) ≡ some n
    → n ≤ max_int
    → atoi (c ∷ s) ≡ some (pos n)
unfolding atoi magnitude as_positive
atoi_digits c s n d e h = ground arith

-- A number within an `int` is read back from its decimal digits.
pub atoi-decimal : (n : ℕ) → n ≤ max_int → atoi (decimal n) ≡ some (pos n)
unfolding decimal
atoi-decimal n h =
    let first = digits_first (suc n) n [] (omega arith) in
    let printed = first.2 in
    let value = digits_value-digits (suc n) n [] (omega arith) in
    rw printed (
      atoi_digits first.0 first.1 n first.3
        (sym (ap (digits_value 0) printed) ∙ value ∙ value_end n) h)
