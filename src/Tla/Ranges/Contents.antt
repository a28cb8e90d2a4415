-- ===== src/Tla/Ranges/Contents.antt =====
-- What `RangeIncl` puts into its set (server/TwoPhaseCommitFull.go).
use text.Mathlib.TextPositions.{eq_refl}
use committer.Prelude.{
  ℕ, zero, suc, ◌+◌, ◌^◌, ◌≤◌, ◌<◌, ◌≡◌, ◌≢◌, refl, ap, ◌∙◌, Bool, true, false, ◌&&◌, ◌||◌, Option,
  some, List, [], ◌∷◌, leb, str_eq, eq_iff, arith, Bool-cases, inl, inr,
}
use committer.Go.{ok}
use committer.Tla.{ℤ, pos, negsuc, Tla, Items, Fields, int, no_items, item, no_fields, lookup, put}
use committer.Tla.Ops.{to_set, to_set_from, set_in, is_some}
use committer.Tla.Print.{print_ℤ, hash}
use committer.Tla.Maps.{lookup-put}
use committer.Tla.Decimal.Signed.{print_ℤ-injective}
use committer.Tla.Integers.{InRange, int_plus, int_lte}
use committer.Tla.Ranges.{
  range_loop, range_incl, set_of_range, with_item, place, place-le, place-gt, place-int_plus,
  int_lte-place, next_place,
}

abbrev ints : List ℤ → Items
ints [] = no_items
ints (z ∷ zs) = item (int z) (ints zs)

-- One of the numbers has the text of `n`.
abbrev listed : ℤ → List ℤ → Bool
listed n [] = false
listed n (z ∷ zs) = str_eq (print_ℤ z) (print_ℤ n) || listed n zs

or_swap : (a b c : Bool) → (b || (a || c)) ≡ ((a || b) || c)
or_swap true true c = refl
or_swap true false c = refl
or_swap false b c = refl

is_some-put :
    (n z : ℤ) (v : Tla) (m : Fields)
    → is_some (lookup (print_ℤ n) (put (print_ℤ z) v m))
      ≡ (str_eq (print_ℤ z) (print_ℤ n) || is_some (lookup (print_ℤ n) m))
is_some-put n z v m =
    rw (lookup-put (print_ℤ n) (print_ℤ z) v m)
      (elim (Bool-cases (str_eq (print_ℤ z) (print_ℤ n))) [
        | inl same ↦ rw same refl
        | inr other ↦ rw other refl
      ])

-- The set of some numbers has the numbers among them, and those that it was made from.
to_set_from-ints :
    (n : ℤ) (acc : Fields) (zs : List ℤ)
    → (m : Fields) × (to_set_from acc (ints zs) ≡ ok m)
      × (is_some (lookup (print_ℤ n) m) ≡ (listed n zs || is_some (lookup (print_ℤ n) acc)))
unfolding to_set_from hash
to_set_from-ints n acc [] = (acc, refl, refl)
to_set_from-ints n acc (z ∷ zs) =
    let (m, made, has) = to_set_from-ints n (put (print_ℤ z) (int z) acc) zs in
    (
      m,
      made,
      has
          ∙ ap (λ b. listed n zs || b) (is_some-put n z (int z) acc)
          ∙ or_swap (str_eq (print_ℤ z) (print_ℤ n)) (listed n zs)
              (is_some (lookup (print_ℤ n) acc)),
    )

same_text : (z n : ℤ) → z ≡ n → str_eq (print_ℤ z) (print_ℤ n) ≡ true
same_text z n same = rw same (eq_refl (print_ℤ n))

place-injective : (a b : ℤ) → InRange a → InRange b → place a ≡ place b → a ≡ b
place-injective (pos m) (pos n) h k e = ap pos (omega (arith, e))
place-injective (pos m) (negsuc n) h k e = absurd (omega (arith, e, h, k))
place-injective (negsuc m) (pos n) h k e = absurd (omega (arith, e, h, k))
place-injective (negsuc m) (negsuc n) h k e = ap negsuc (omega (arith, e, h, k))

text-place :
    (z n : ℤ)
    → InRange z
    → InRange n
    → str_eq (print_ℤ z) (print_ℤ n) ≡ (leb (place z) (place n) && leb (place n) (place z))
text-place z n h k = elim (Bool-cases (str_eq (print_ℤ z) (print_ℤ n))) [
  | inl same ↦
      let at : place z ≡ place n =
        ap place (print_ℤ-injective z n ((eq_iff (print_ℤ z) (print_ℤ n)).0 same)) in
      rw same (ground (arith, at))
  | inr other ↦
      let apart : place z ≢ place n =
        λ at. let same = same_text z n (place-injective z n h k at) in cc (other, same) in
      rw other (ground (arith, apart))
]

-- From `i` to `upper`, one number and those after it.
between_step :
    (i j n upper : ℕ)
    → j ≡ i + 1
    → i ≤ upper
    → ((leb i n && leb n i) || (leb j n && leb n upper)) ≡ (leb i n && leb n upper)
between_step i j n upper next le = ground (arith, next, le)

between_none : (i n upper : ℕ) → upper < i → false ≡ (leb i n && leb n upper)
between_none i n upper lt = ground (arith, lt)

abbrev Contains : ℤ → ℤ → ℤ → Option Items → Type 0
Contains n i upper o =
    (zs : List ℤ) × (o ≡ some (ints zs))
    × (listed n zs ≡ (leb (place i) (place n) && leb (place n) (place upper)))

range_loop-Contains :
    (fuel : ℕ) (i upper n : ℤ)
    → InRange i
    → InRange upper
    → InRange n
    → place upper + 1 < 2 ^ 64
    → place upper + 1 ≤ fuel + place i
    → Contains n i upper (range_loop fuel i upper)
unfolding range_loop with_item
range_loop-Contains zero i upper n h k r below enough = elim (Bool-cases (int_lte i upper)) [
  | inl more ↦ let le = place-le i upper h k more in absurd (omega (arith, le, enough))
  | inr done ↦ rw done ([], refl, between_none _ _ _ (place-gt i upper h k done))
]
range_loop-Contains (suc fuel) i upper n h k r below enough = elim (Bool-cases (int_lte i upper)) [
  | inl more ↦
      let le = place-le i upper h k more in
      let j = int_plus i (pos 1) in
      let (h', p) = place-int_plus i h in
      let (enough', next) = next_place fuel (place i) (place j) (place upper) p le below enough in
      let (zs, is, has) = range_loop-Contains fuel j upper n h' k r below enough' in
      rw more (
        i ∷ zs,
        rw is refl,
        rw (text-place i n h r, has)
            (between_step (place i) (place j) (place n) (place upper) next le),
      )
  | inr done ↦ rw done ([], refl, between_none _ _ _ (place-gt i upper h k done))
]

or_right_false : (b : Bool) → (b || false) ≡ b
or_right_false true = refl
or_right_false false = refl

-- `RangeIncl` makes the set of the numbers between its bounds, if the upper bound is not the greatest
-- `int`: it ends within as many rounds as there are numbers from the lower bound to the upper one,
-- without a panic, and a number is in its set exactly if it is between them, both included. The
-- bounds and the number are such that an `int` holds them.
pub range_incl-set_in :
    (fuel : ℕ) (lower upper n : ℤ)
    → InRange lower
    → InRange upper
    → InRange n
    → place upper + 1 < 2 ^ 64
    → place upper + 1 ≤ fuel + place lower
    → (m : Fields) × (range_incl fuel lower upper ≡ some (ok m))
      × (set_in (int n) m ≡ ok (int_lte lower n && int_lte n upper))
unfolding range_incl set_of_range to_set set_in hash lookup
range_incl-set_in fuel lower upper n h k r below enough =
    let (zs, is, has) = range_loop-Contains fuel lower upper n h k r below enough in
    let (m, made, is_in) = to_set_from-ints n no_fields zs in
    (
      m,
      ap set_of_range is ∙ ap some made,
      ap ok (
          is_in
          ∙ or_right_false (listed n zs)
          ∙ has
          ∙ rw (int_lte-place lower n h r, int_lte-place n upper r k) refl),
    )
