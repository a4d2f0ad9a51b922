-- ===== src/Decimal.antt =====
-- `String(n)` and `padStart` on the digits of a whole number, as lists of character codes.
pub mod Printed
use erp_fashion_api.Common.{
  ℕ, zero, suc, ◌+◌, ◌-◌, ◌*◌, ◌/◌, ◌%◌, ◌<◌, ◌≡◌, refl, inl, inr, List, [], ◌∷◌, ◌++◌, arith, ltb,
  if◌then◌else◌, Bool-cases, length,
}

abbrev pub Text : Type 0
Text = List ℕ

-- The digits of `n`, on fuel that `n` itself bounds.
decimal_from : ℕ → ℕ → Text
decimal_from zero n = []
decimal_from (suc f) n =
    let rest = decimal_from f (n / 10) ++ (b'0' + n % 10) ∷ [] in
    if ltb n 10 then (b'0' + n) ∷ [] else rest

-- `String(n)`
unfoldable pub decimal : ℕ → Text
unfolding decimal_from
decimal n = decimal_from (suc n) n

zeros : ℕ → Text → Text
zeros zero text = text
zeros (suc k) text = b'0' ∷ zeros k text

-- `text.padStart(width, '0')`
unfoldable pub pad_start : ℕ → Text → Text
unfolding zeros
pad_start width text = zeros (width - length text) text

-- The number that a text of digits stands for, read after `acc`.
pub read_digits : ℕ → Text → ℕ
read_digits acc [] = acc
read_digits acc (c ∷ cs) = read_digits (acc * 10 + (c - b'0')) cs

pub read_digits-append :
    (acc : ℕ) (xs ys : Text) → read_digits acc (xs ++ ys) ≡ read_digits (read_digits acc xs) ys
unfolding read_digits
read_digits-append acc [] ys = refl
read_digits-append acc (x ∷ xs) ys = read_digits-append (acc * 10 + (x - b'0')) xs ys

read_digits-decimal_from : (f n : ℕ) → n < f → read_digits 0 (decimal_from f n) ≡ n
unfolding decimal_from read_digits
read_digits-decimal_from zero n h = elim h [ ]
read_digits-decimal_from (suc f) n h = elim (Bool-cases (ltb n 10)) [
  | inl small ↦ rw small (ground arith)
  | inr large ↦
      let ih = read_digits-decimal_from f (n / 10) (ground arith) in
      rw (large, read_digits-append 0 (decimal_from f (n / 10)), ih) (omega arith)
]

-- Reading the digits that `String` writes gives the number back.
pub read_digits-decimal : (n : ℕ) → read_digits 0 (decimal n) ≡ n
unfolding decimal
read_digits-decimal n = read_digits-decimal_from (suc n) n (omega arith)

read_digits-zeros : (k : ℕ) (text : Text) → read_digits 0 (zeros k text) ≡ read_digits 0 text
unfolding zeros read_digits
read_digits-zeros zero text = refl
read_digits-zeros (suc k) text = read_digits-zeros k text

-- Padding with zeros does not change the number that is read.
pub read_digits-pad_start :
    (width : ℕ) (text : Text) → read_digits 0 (pad_start width text) ≡ read_digits 0 text
unfolding pad_start
read_digits-pad_start width text = read_digits-zeros (width - length text) text
