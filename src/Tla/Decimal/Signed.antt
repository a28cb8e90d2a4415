-- ===== src/Tla/Decimal/Signed.antt =====
-- The texts of the numbers that an `int` holds: different numbers have different texts.
use Prim.Native.String.{◌++◌, slice, char_at}
use Prim.Native.Char.{code}
use Prim.Native.Nat.{◌/◌}
use text.Mathlib.TextPositions.{slice-append_left}
use text.Mathlib.TextLemmas.{append-nil, append_assoc}
use committer.Prelude.{ℕ, zero, suc, ◌+◌, ◌%◌, ◌≤◌, ◌≡◌, ◌≢◌, sym, ap, subst, ◌∙◌, String, arith}
use committer.Tla.{ℤ, pos, negsuc}
use committer.Tla.Print.{digit, decimal, decimal_ℕ, print_ℤ}
use committer.Tla.Decimal.{len-digit, Shape, decimal-Shape, decimal_ℕ-injective, prefix-injective}

digit-code : (d : ℕ) → 48 ≤ code (char_at (digit d) 0)
unfolding digit
digit-code zero = omega arith
digit-code (suc zero) = omega arith
digit-code (suc (suc zero)) = omega arith
digit-code (suc (suc (suc zero))) = omega arith
digit-code (suc (suc (suc (suc zero)))) = omega arith
digit-code (suc (suc (suc (suc (suc zero))))) = omega arith
digit-code (suc (suc (suc (suc (suc (suc zero)))))) = omega arith
digit-code (suc (suc (suc (suc (suc (suc (suc zero))))))) = omega arith
digit-code (suc (suc (suc (suc (suc (suc (suc (suc zero)))))))) = omega arith
digit-code (suc (suc (suc (suc (suc (suc (suc (suc (suc n))))))))) = omega arith

-- The text of a natural number begins with a digit.
decimal-head : (f n : ℕ) → n ≤ f → (d : ℕ) × (rest : String) × (decimal f n ≡ digit d ++ rest)
decimal-head zero n le = elim (decimal-Shape zero n le) [
  | Shape.short lt h ↦ (n, "", h ∙ sym (append-nil (digit n)))
  | Shape.long g e ge le' h ↦ absurd (omega (arith, e))
]
decimal-head (suc f) n le = elim (decimal-Shape (suc f) n le) [
  | Shape.short lt h ↦ (n, "", h ∙ sym (append-nil (digit n)))
  | Shape.long g e ge le' h ↦
      let at : g ≡ f = omega (arith, e) in
      let (d, rest, begins) = decimal-head f (n / 10) (subst (λ k. n / 10 ≤ k) at le') in
      let tenth : decimal g (n / 10) ≡ digit d ++ rest = ap (λ k. decimal k (n / 10)) at ∙ begins in
      (
        d,
        rest ++ digit (n % 10),
        h ∙ ap (λ s. s ++ digit (n % 10)) tenth ∙ append_assoc (digit d) rest (digit (n % 10)),
      )
]

-- No natural number has the text of a negative one.
decimal_ℕ-ne-minus : (m : ℕ) (s : String) → decimal_ℕ m ≢ "-" ++ s
unfolding decimal_ℕ
decimal_ℕ-ne-minus m s h =
    let (d, rest, begins) = decimal-head m m (omega arith) in
    let head : digit d ≡ "-" =
      sym (slice-append_left (digit d) rest)
      ∙ ap (slice (digit d ++ rest) 0) (len-digit d)
      ∙ ap (λ x. slice x 0 1) (sym begins ∙ h)
      ∙ slice-append_left "-" s in
    let small = digit-code d in
    let same : code (char_at (digit d) 0) ≡ 45 = ap (λ x. code (char_at x 0)) head in
    omega (arith, small, same)

pub print_ℤ-injective : (m n : ℤ) → print_ℤ m ≡ print_ℤ n → m ≡ n
unfolding print_ℤ
print_ℤ-injective (pos m) (pos n) h = ap pos (decimal_ℕ-injective m n h)
print_ℤ-injective (pos m) (negsuc n) h = absurd (decimal_ℕ-ne-minus m (decimal_ℕ (n + 1)) h)
print_ℤ-injective (negsuc m) (pos n) h = absurd (decimal_ℕ-ne-minus n (decimal_ℕ (m + 1)) (sym h))
print_ℤ-injective (negsuc m) (negsuc n) h =
    let texts = prefix-injective "-" (decimal_ℕ (m + 1)) (decimal_ℕ (n + 1)) h in
    let same = decimal_ℕ-injective (m + 1) (n + 1) texts in ap negsuc (omega (arith, same))
