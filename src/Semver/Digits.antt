-- ===== src/Semver/Digits.antt =====
-- Decimal digits: what `print_digits` writes is what `span_digits` takes and `digits_value` reads.
use hdfdata.Base.{
  ℕ, zero, suc, ◌+◌, ◌-◌, ◌*◌, ◌/◌, ◌%◌, ◌^◌, ◌<◌, ◌≡◌, refl, inl, inr, true, false, List, [], ◌∷◌,
  ◌++◌, arith, ltb, ltb→lt, Bool-cases,
}
use hdfdata.Semver.{
  print_digits, decimal, is_digit, span_digits, digits_value, atoi, group_value, ok,
}

abbrev AllDigits : List ℕ → Type 0
AllDigits [] = Unit
AllDigits (c ∷ s) = (is_digit c ≡ true) × AllDigits s

-- A text that does not go on with a digit.
abbrev pub Ends : List ℕ → Type 0
Ends [] = Unit
Ends (c ∷ s) = is_digit c ≡ false

span_digits-append :
    (ds rest : List ℕ) → AllDigits ds → Ends rest → span_digits (ds ++ rest) ≡ (ds, rest)
unfolding span_digits
span_digits-append [] [] h e = refl
span_digits-append [] (c ∷ rest) h e = ground arith
span_digits-append (c ∷ ds) rest h e = ground (arith, span_digits-append ds rest h.1 e)

AllDigits-append : (xs ys : List ℕ) → AllDigits xs → AllDigits ys → AllDigits (xs ++ ys)
AllDigits-append [] ys h k = k
AllDigits-append (x ∷ xs) ys h k = (h.0, AllDigits-append xs ys h.1 k)

is_digit_add : (d : ℕ) → d < 10 → is_digit (b'0' + d) ≡ true
unfolding is_digit
is_digit_add d h = ground arith

print_digits-AllDigits : (fuel n : ℕ) → AllDigits (print_digits fuel n)
unfolding print_digits
print_digits-AllDigits zero n = tt
print_digits-AllDigits (suc fuel) n = elim (Bool-cases (ltb n 10)) [
  | inl small ↦ rw small (is_digit_add n (ltb→lt n 10 small), tt)
  | inr large ↦ rw large (
      AllDigits-append (print_digits fuel (n / 10)) ((b'0' + n % 10) ∷ [])
        (print_digits-AllDigits fuel (n / 10)) (is_digit_add (n % 10) (omega arith), tt))
]

digits_value-append :
    (acc : ℕ) (xs ys : List ℕ) → digits_value acc (xs ++ ys) ≡ digits_value (digits_value acc xs) ys
unfolding digits_value
digits_value-append acc [] ys = refl
digits_value-append acc (x ∷ xs) ys = digits_value-append (acc * 10 + (x - b'0')) xs ys

digits_value-print : (fuel n : ℕ) → n < fuel → digits_value 0 (print_digits fuel n) ≡ n
unfolding digits_value print_digits
digits_value-print zero n h = absurd (omega arith)
digits_value-print (suc fuel) n h = elim (Bool-cases (ltb n 10)) [
  | inl small ↦ rw small (omega arith)
  | inr large ↦
      rw (large, digits_value-append 0 (print_digits fuel (n / 10)) ((b'0' + n % 10) ∷ []))
        (rw (digits_value-print fuel (n / 10) (ground arith)) (omega arith))
]

-- The digits of a number are a group that the scanner takes whole, up to what ends it.
pub span_digits-decimal :
    (n : ℕ) (rest : List ℕ) → Ends rest → span_digits (decimal n ++ rest) ≡ (decimal n, rest)
unfolding decimal
span_digits-decimal n rest e =
    span_digits-append (decimal n) rest (print_digits-AllDigits (suc n) n) e

snoc-cons :
    (xs : List ℕ) (d : ℕ)
    → AllDigits xs
    → is_digit d ≡ true
    → (c : ℕ) × (s : List ℕ) × (xs ++ d ∷ [] ≡ c ∷ s) × (is_digit c ≡ true)
snoc-cons [] d _ h = (d, [], refl, h)
snoc-cons (x ∷ xs) d k h = (x, xs ++ d ∷ [], refl, k.0)

-- The first byte of a number is a digit.
pub decimal-cons : (n : ℕ) → (c : ℕ) × (s : List ℕ) × (decimal n ≡ c ∷ s) × (is_digit c ≡ true)
unfolding decimal print_digits
decimal-cons n = elim (Bool-cases (ltb n 10)) [
  | inl small ↦ (b'0' + n, [], rw small, is_digit_add n (ltb→lt n 10 small))
  | inr large ↦ rw large (
      snoc-cons (print_digits n (n / 10)) (b'0' + n % 10) (print_digits-AllDigits n (n / 10))
        (is_digit_add (n % 10) (omega arith)))
]

pub group_value-decimal : (n : ℕ) → n < 2 ^ 63 → group_value (decimal n) ≡ ok n
unfolding group_value atoi
group_value-decimal n h =
    let (c, s, e, _) = decimal-cons n in
    let v : digits_value 0 (c ∷ s) ≡ n =
      rw (← e) (unfold decimal in digits_value-print (suc n) n (omega arith)) in
    rw e (ground (arith, v))
