-- ===== src/Tla/Integers.antt =====
-- The arithmetic of the TLA library (server/TwoPhaseCommitFull.go), on Go's `int` of 64 bits, whose
-- sums, differences and products wrap around.
use Prim.Native.Nat.{◌/◌}
use committer.Prelude.{
  ℕ, zero, suc, ◌+◌, ◌-◌, ◌*◌, ◌%◌, ◌^◌, ◌≤◌, ◌<◌, ◌≡◌, ◌↔◌, refl, sym, ap, subst, ◌∙◌, Bool, true,
  false, ltb, leb, arith, if◌then◌else◌,
}
use committer.Go.{Go, ok, panic, divide_by_zero}
use committer.Tla.{ℤ, pos, negsuc}

-- The bits of a number, as a number below 2^64; `negsuc n` is -(n + 1).
unfoldable pub word : ℤ → ℕ
word (pos n) = n % 2 ^ 64
word (negsuc n) = 2 ^ 64 - 1 - n % 2 ^ 64

unfoldable pub signed : ℕ → ℤ
signed w = if ltb w (2 ^ 63) then pos w else negsuc (2 ^ 64 - 1 - w)

-- The numbers that an `int` holds.
abbrev pub InRange : ℤ → Type 0
InRange (pos n) = n < 2 ^ 63
InRange (negsuc n) = n < 2 ^ 63

unfoldable pub int_plus : ℤ → ℤ → ℤ
unfolding word signed
int_plus a b = signed ((word a + word b) % 2 ^ 64)

unfoldable pub int_minus : ℤ → ℤ → ℤ
unfolding word signed
int_minus a b = signed ((word a + (2 ^ 64 - word b)) % 2 ^ 64)

unfoldable pub int_mul : ℤ → ℤ → ℤ
unfolding word signed
int_mul a b = signed ((word a * word b) % 2 ^ 64)

negated : ℕ → ℤ
negated zero = pos zero
negated (suc n) = negsuc n

-- Division truncates towards zero; the least number divided by -1 wraps around.
unfoldable pub int_div : ℤ → ℤ → Go ℤ
unfolding word signed negated
int_div a (pos zero) = panic divide_by_zero
int_div (pos m) (pos (suc n)) = ok (pos (m / suc n))
int_div (pos m) (negsuc n) = ok (negated (m / suc n))
int_div (negsuc m) (pos (suc n)) = ok (negated (suc m / suc n))
int_div (negsuc m) (negsuc n) = ok (signed ((suc m / suc n) % 2 ^ 64))

unfoldable pub int_lt : ℤ → ℤ → Bool
int_lt (pos m) (pos n) = ltb m n
int_lt (pos m) (negsuc n) = false
int_lt (negsuc m) (pos n) = true
int_lt (negsuc m) (negsuc n) = ltb n m

unfoldable pub int_lte : ℤ → ℤ → Bool
int_lte (pos m) (pos n) = leb m n
int_lte (pos m) (negsuc n) = false
int_lte (negsuc m) (pos n) = true
int_lte (negsuc m) (negsuc n) = leb n m

unfoldable pub int_gt : ℤ → ℤ → Bool
unfolding int_lt
int_gt a b = int_lt b a

unfoldable pub int_gte : ℤ → ℤ → Bool
unfolding int_lte
int_gte a b = int_lte b a

signed-word : (a : ℤ) → InRange a → signed (word a) ≡ a
unfolding signed word
signed-word (pos n) h = ground (arith, h)
signed-word (negsuc n) h = ground (arith, h)

word-signed : (w : ℕ) → w < 2 ^ 64 → word (signed w) ≡ w
unfolding signed word
word-signed w h = ground (arith, h)

signed-InRange : (w : ℕ) → w < 2 ^ 64 → InRange (signed w)
unfolding signed
signed-InRange w h = ground (arith, h)

word-lt : (a : ℤ) → word a < 2 ^ 64
unfolding word
word-lt (pos n) = omega arith
word-lt (negsuc n) = omega arith

mod_lt : (x : ℕ) → x % 2 ^ 64 < 2 ^ 64
mod_lt x = omega arith

add_sub_mod : (x y : ℕ) → x < 2 ^ 64 → y < 2 ^ 64 → ((x + y) % 2 ^ 64 + (2 ^ 64 - y)) % 2 ^ 64 ≡ x
add_sub_mod x y h k = omega (arith, h, k)

int_plus-signed : (a b : ℤ) → int_plus a b ≡ signed ((word a + word b) % 2 ^ 64)
unfolding int_plus
int_plus-signed a b = refl

int_minus-signed : (a b : ℤ) → int_minus a b ≡ signed ((word a + (2 ^ 64 - word b)) % 2 ^ 64)
unfolding int_minus
int_minus-signed a b = refl

-- Adding and taking away again gives the number back, also where the sum wraps around, and a sum is
-- always a number that an `int` holds; the first number is one that an `int` holds.
pub int_minus-int_plus :
    (a b : ℤ) → InRange a → InRange (int_plus a b) × (int_minus (int_plus a b) b ≡ a)
int_minus-int_plus a b h =
    let w = (word a + word b) % 2 ^ 64 in
    (
      subst InRange (sym (int_plus-signed a b)) (signed-InRange w (mod_lt (word a + word b))),
      int_minus-signed (int_plus a b) b
          ∙ ap (λ x. signed ((x + (2 ^ 64 - word b)) % 2 ^ 64))
              (ap word (int_plus-signed a b) ∙ word-signed w (mod_lt (word a + word b)))
          ∙ ap signed (add_sub_mod (word a) (word b) (word-lt a) (word-lt b))
          ∙ signed-word a h,
    )

-- A sum of numbers that are not negative is below the first of them exactly when it does not fit
-- in an `int`.
int_plus-overflow :
    (m n : ℕ)
    → m < 2 ^ 63
    → n < 2 ^ 63
    → (int_lt (int_plus (pos m) (pos n)) (pos m) ≡ true) ↔ (2 ^ 63 ≤ m + n)
unfolding int_lt int_plus word signed
int_plus-overflow m n h k = ground (arith, h, k)
