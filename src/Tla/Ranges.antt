-- ===== src/Tla/Ranges.antt =====
-- `RangeIncl` (server/TwoPhaseCommitFull.go): a loop on Go's `int`, whose counter wraps around.
pub mod Contents
use committer.Prelude.{
  ℕ, zero, suc, ◌+◌, ◌-◌, ◌%◌, ◌^◌, ◌≤◌, ◌<◌, ◌≡◌, refl, sym, ap, ◌∙◌, true, false, Option, none,
  some, leb, arith, if◌then◌else◌, Bool-cases, inl, inr,
}
use committer.Go.{Go}
use committer.Tla.{ℤ, pos, negsuc, Tla, Items, Fields, int, no_items, item}
use committer.Tla.Ops.{to_set, len}
use committer.Tla.Integers.{InRange, int_plus, int_lte, word, signed}

with_item : Tla → Option Items → Option Items
with_item v none = none
with_item v (some vs) = some (item v vs)

-- The loop: `none` if it is still running after the rounds that it was given.
unfoldable pub range_loop : ℕ → ℤ → ℤ → Option Items
unfolding int_lte int_plus with_item
range_loop zero i upper = if int_lte i upper then none else some no_items
range_loop (suc fuel) i upper =
    let rest = range_loop fuel (int_plus i (pos 1)) upper in
    if int_lte i upper then with_item (int i) rest else some no_items

set_of_range : Option Items → Option (Go Fields)
set_of_range none = none
set_of_range (some vs) = some (to_set vs)

-- `RangeIncl`
unfoldable pub range_incl : ℕ → ℤ → ℤ → Option (Go Fields)
unfolding range_loop set_of_range
range_incl fuel lower upper = set_of_range (range_loop fuel lower upper)

-- The place of a number among all that an `int` holds, from 0 to 2^64 - 1.
abbrev pub place : ℤ → ℕ
place (pos n) = 2 ^ 63 + n
place (negsuc n) = 2 ^ 63 - 1 - n

place-lt : (a : ℤ) → InRange a → place a < 2 ^ 64
place-lt (pos n) h = omega (arith, h)
place-lt (negsuc n) h = omega arith

int_lte-place : (a b : ℤ) → InRange a → InRange b → int_lte a b ≡ leb (place a) (place b)
unfolding int_lte
int_lte-place (pos m) (pos n) h k = ground (arith, h, k)
int_lte-place (pos m) (negsuc n) h k = ground (arith, h, k)
int_lte-place (negsuc m) (pos n) h k = ground (arith, h, k)
int_lte-place (negsuc m) (negsuc n) h k = ground (arith, h, k)

leb-le : (m n : ℕ) → leb m n ≡ true → m ≤ n
leb-le m n h = ground (arith, h)

leb-lt : (m n : ℕ) → leb m n ≡ false → n < m
leb-lt m n h = ground (arith, h)

place-le : (a b : ℤ) → InRange a → InRange b → int_lte a b ≡ true → place a ≤ place b
place-le a b h k e = leb-le (place a) (place b) (sym (int_lte-place a b h k) ∙ e)

place-gt : (a b : ℤ) → InRange a → InRange b → int_lte a b ≡ false → place b < place a
place-gt a b h k e = leb-lt (place a) (place b) (sym (int_lte-place a b h k) ∙ e)

place-int_plus :
    (a : ℤ)
    → InRange a
    → InRange (int_plus a (pos 1)) × (place (int_plus a (pos 1)) ≡ (place a + 1) % 2 ^ 64)
unfolding int_plus word signed
place-int_plus (pos n) h = ground (arith, h)
place-int_plus (negsuc n) h = ground (arith, h)

-- One more round: the counter is at most the upper bound, and does not wrap around.
next_place :
    (fuel i j upper : ℕ)
    → j ≡ (i + 1) % 2 ^ 64
    → i ≤ upper
    → upper + 1 < 2 ^ 64
    → upper + 1 ≤ suc fuel + i
    → (upper + 1 ≤ fuel + j) × (j ≡ i + 1)
next_place fuel i j upper h le below enough = (omega arith, omega arith)

greatest : (i : ℤ) → InRange i → int_lte i (pos 9223372036854775807) ≡ true
unfolding int_lte
greatest (pos n) h = ground (arith, h)
greatest (negsuc n) h = refl

range_loop-none :
    (fuel : ℕ) (i : ℤ) → InRange i → range_loop fuel i (pos 9223372036854775807) ≡ none
unfolding range_loop with_item
range_loop-none zero i h = rw (greatest i h) refl
range_loop-none (suc fuel) i h =
    rw (greatest i h, range_loop-none fuel (int_plus i (pos 1)) (place-int_plus i h).0) refl

-- With the greatest `int` as the upper bound the counter wraps around, and `RangeIncl` is still at
-- its loop after any number of rounds.
pub range_incl-none :
    (fuel : ℕ) (lower : ℤ) → InRange lower → range_incl fuel lower (pos 9223372036854775807) ≡ none
unfolding range_incl set_of_range
range_incl-none fuel lower h = ap set_of_range (range_loop-none fuel lower h)
