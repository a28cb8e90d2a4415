-- ===== src/Tla/Decimal.antt =====
-- The decimal digits of a number (`strconv.Itoa` and `%d`): different numbers have different texts.
pub mod Signed
use Prim.Native.Nat.{◌/◌}
use Prim.Native.String.{◌++◌, len, slice, char_at}
use text.Mathlib.TextPositions.{len-append, slice-append_left, slice-append_right}
use Prim.Native.Char.{code}
use committer.Prelude.{
  ℕ, zero, suc, ◌+◌, ◌-◌, ◌%◌, ◌≤◌, ◌<◌, ◌≡◌, ◌≢◌, inl, inr, refl, sym, ap, subst, ◌∙◌, String, ltb,
  arith, Bool-cases,
}
use committer.Tla.Print.{digit, decimal, decimal_ℕ}

-- Two texts that agree, and the last parts of which are as long, agree in both parts.
pub append-injective : (a b c d : String) → len c ≡ len d → a ++ c ≡ b ++ d → (a ≡ b) × (c ≡ d)
append-injective a b c d same h =
    let whole : len a + len c ≡ len b + len d = sym (len-append a c) ∙ ap len h ∙ len-append b d in
    let first : len a ≡ len b = omega (arith, same, whole) in
    let left : slice (a ++ c) 0 (len a) ≡ a = slice-append_left a c in
    let right : slice (a ++ c) (len a) (len a + len c) ≡ c = slice-append_right a c in
    let left' : slice (b ++ d) 0 (len b) ≡ b = slice-append_left b d in
    let right' : slice (b ++ d) (len b) (len b + len d) ≡ d = slice-append_right b d in (cc, cc)

-- A common first part can be taken away.
pub prefix-injective : (p a b : String) → p ++ a ≡ p ++ b → a ≡ b
prefix-injective p a b h =
    let whole : len p + len a ≡ len p + len b = sym (len-append p a) ∙ ap len h ∙ len-append p b in
    (append-injective p p a b (omega (arith, whole)) h).1

pub len-digit : (n : ℕ) → len (digit n) ≡ 1
unfolding digit
len-digit zero = refl
len-digit (suc zero) = refl
len-digit (suc (suc zero)) = refl
len-digit (suc (suc (suc zero))) = refl
len-digit (suc (suc (suc (suc zero)))) = refl
len-digit (suc (suc (suc (suc (suc zero))))) = refl
len-digit (suc (suc (suc (suc (suc (suc zero)))))) = refl
len-digit (suc (suc (suc (suc (suc (suc (suc zero))))))) = refl
len-digit (suc (suc (suc (suc (suc (suc (suc (suc zero)))))))) = refl
len-digit (suc (suc (suc (suc (suc (suc (suc (suc (suc n))))))))) = refl

value : String → ℕ
value s = code (char_at s 0) - 48

value-digit : (n : ℕ) → n < 10 → value (digit n) ≡ n
unfolding digit value
value-digit zero lt = refl
value-digit (suc zero) lt = refl
value-digit (suc (suc zero)) lt = refl
value-digit (suc (suc (suc zero))) lt = refl
value-digit (suc (suc (suc (suc zero)))) lt = refl
value-digit (suc (suc (suc (suc (suc zero))))) lt = refl
value-digit (suc (suc (suc (suc (suc (suc zero)))))) lt = refl
value-digit (suc (suc (suc (suc (suc (suc (suc zero))))))) lt = refl
value-digit (suc (suc (suc (suc (suc (suc (suc (suc zero)))))))) lt = refl
value-digit (suc (suc (suc (suc (suc (suc (suc (suc (suc zero))))))))) lt = refl
value-digit (suc (suc (suc (suc (suc (suc (suc (suc (suc (suc n)))))))))) lt = omega (arith, lt)

digit-injective : (m n : ℕ) → m < 10 → n < 10 → digit m ≡ digit n → m ≡ n
digit-injective m n lt lt' h = sym (value-digit m lt) ∙ ap value h ∙ value-digit n lt'

-- The text of a number is one digit, or ends in one digit after the text of its tenth part.
data Shape (f n : ℕ) : Type 0 where
  short : n < 10 → decimal f n ≡ digit n → Shape f n
  long :
      (g : ℕ)
      → f ≡ suc g
      → 10 ≤ n
      → n / 10 ≤ g
      → decimal f n ≡ decimal g (n / 10) ++ digit (n % 10)
      → Shape f n

decimal-Shape : (f n : ℕ) → n ≤ f → Shape f n
unfolding decimal
decimal-Shape zero n le = short (omega (arith, le)) refl
decimal-Shape (suc f) n le = elim (Bool-cases (ltb n 10)) [
  | inl small ↦ short (ground (arith, small)) (rw small refl)
  | inr big ↦
      let large : 10 ≤ n = ground (arith, big) in
      long f refl large (omega (arith, large, le)) (rw big refl)
]

len-decimal : (f n : ℕ) → n ≤ f → 0 < len (decimal f n)
len-decimal f n le = elim (decimal-Shape f n le) [
  | short lt h ↦ rw h (rw (len-digit n) (omega arith))
  | long g e ge le' h ↦ rw h (
      rw (len-append (decimal g (n / 10)) (digit (n % 10))) (rw (len-digit (n % 10)) (omega arith)))
]

short-ne-long : (g m n : ℕ) → n / 10 ≤ g → digit m ≢ decimal g (n / 10) ++ digit (n % 10)
short-ne-long g m n le h =
    let some_digits : 0 < len (decimal g (n / 10)) = len-decimal g (n / 10) le in
    let longer : 1 ≡ len (decimal g (n / 10)) + 1 =
      sym (len-digit m)
      ∙ ap len h
      ∙ len-append (decimal g (n / 10)) (digit (n % 10))
      ∙ ap (λ k. len (decimal g (n / 10)) + k) (len-digit (n % 10)) in
    omega (arith, some_digits, longer)

decimal-injective : (f g m n : ℕ) → m ≤ f → n ≤ g → decimal f m ≡ decimal g n → m ≡ n
decimal-injective zero g m n le le' h = below (decimal-Shape zero m le) (decimal-Shape g n le')
  where
    below : Shape zero m → Shape g n → m ≡ n
    below (short lt e) (short lt' e') = digit-injective m n lt lt' (sym e ∙ h ∙ e')
    below (short lt e) (long g' _ _ le e') = absurd (short-ne-long g' m n le (sym e ∙ h ∙ e'))
    below (long f' e _ _ _) s = omega (arith, e)
decimal-injective (suc f) g m n le le' h =
    both (λ g' a b. decimal-injective f g' a b) (decimal-Shape (suc f) m le) (decimal-Shape g n le')
  where
    both :
        ((g' a b : ℕ) → a ≤ f → b ≤ g' → decimal f a ≡ decimal g' b → a ≡ b)
        → Shape (suc f) m
        → Shape g n
        → m ≡ n
    both tenth_part (short lt e) (short lt' e') = digit-injective m n lt lt' (sym e ∙ h ∙ e')
    both tenth_part (short lt e) (long g' _ _ le e') =
        absurd (short-ne-long g' m n le (sym e ∙ h ∙ e'))
    both tenth_part (long f' _ _ le e) (short lt' e') =
        absurd (short-ne-long f' n m le (sym e' ∙ sym h ∙ e))
    both tenth_part (long f' same ge le e) (long g' _ ge' le' e') =
        let last : len (digit (m % 10)) ≡ len (digit (n % 10)) =
          len-digit (m % 10) ∙ sym (len-digit (n % 10)) in
        let (tenth, digits) =
          append-injective (decimal f' (m / 10)) (decimal g' (n / 10)) (digit (m % 10))
            (digit (n % 10)) last (sym e ∙ h ∙ e') in
        let at : f' ≡ f = omega (arith, same) in
        let tenths : m / 10 ≡ n / 10 =
          tenth_part g' (m / 10) (n / 10) (subst (λ k. m / 10 ≤ k) at le) le'
            (subst (λ k. decimal k (m / 10) ≡ decimal g' (n / 10)) at tenth) in
        let ones : m % 10 ≡ n % 10 =
          digit-injective (m % 10) (n % 10) (omega arith) (omega arith) digits in
        omega (arith, tenths, ones)

-- Different numbers have different texts.
pub decimal_ℕ-injective : (m n : ℕ) → decimal_ℕ m ≡ decimal_ℕ n → m ≡ n
unfolding decimal_ℕ
decimal_ℕ-injective m n h = decimal-injective m n m n (omega arith) (omega arith) h
