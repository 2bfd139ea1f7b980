-- ===== src/Base/DecimalLaws.antt =====
-- Numbers are read back from their decimal text, which has digits alone.
use tkp_platform.Base.{
  ℕ, zero, suc, ◌+◌, ◌-◌, ◌*◌, ◌/◌, ◌%◌, ◌≤◌, ◌<◌, ◌≡◌, refl, sym, ap, ◌∙◌, inl, inr, false, [],
  ◌∷◌, ◌++◌, ◌==◌, arith, ltb, contains, Bool-cases,
}
use tkp_platform.Base.AnyLaws.{any-append}
use tkp_platform.Base.Text.{Text}
use tkp_platform.Base.Decimal.{decimal, decimal_digits}

-- The number that digits stand for, after those of `acc`.
value_from : ℕ → Text → ℕ
value_from acc [] = acc
value_from acc (c ∷ t) = value_from (acc * 10 + (c - 48)) t

value_from-append :
    (acc c : ℕ) (t : Text) → value_from acc (t ++ c ∷ []) ≡ value_from acc t * 10 + (c - 48)
unfolding value_from
value_from-append acc c [] = refl
value_from-append acc c (d ∷ t) = value_from-append (acc * 10 + (d - 48)) c t

decimal_digits-value : (f n : ℕ) → n < f → value_from 0 (decimal_digits f n) ≡ n
unfolding decimal_digits value_from
decimal_digits-value zero n h = absurd (omega arith)
decimal_digits-value (suc f) n h = elim (Bool-cases (ltb n 10)) [
  | inl t ↦ rw t (omega arith)
  | inr e ↦
      let big : 10 ≤ n = ground (arith, e) in
      let less : n / 10 < f = omega (arith, h, big) in
      rw
        (
          e,
          value_from-append 0 (48 + n % 10) (decimal_digits f (n / 10)),
          decimal_digits-value f (n / 10) less,
        )
        (omega arith)
]

-- Different numbers have different texts.
pub decimal_inj : (m n : ℕ) → decimal m ≡ decimal n → m ≡ n
unfolding decimal
decimal_inj m n h =
    sym (decimal_digits-value (suc m) m (omega arith))
    ∙ ap (value_from 0) h
    ∙ decimal_digits-value (suc n) n (omega arith)

decimal_digits-slash : (f n : ℕ) → contains b'/' (decimal_digits f n) ≡ false
unfolding decimal_digits
decimal_digits-slash zero n = refl
decimal_digits-slash (suc f) n = elim (Bool-cases (ltb n 10)) [
  | inl t ↦ rw t (ground arith)
  | inr e ↦
      rw
        (
          e,
          any-append (λ b. b'/' == b) (decimal_digits f (n / 10)) ((48 + n % 10) ∷ []),
          decimal_digits-slash f (n / 10),
        )
        (ground arith)
]

pub decimal-slash : (n : ℕ) → contains b'/' (decimal n) ≡ false
unfolding decimal
decimal-slash n = decimal_digits-slash (suc n) n
