-- ===== src/Examples/Values.antt =====
-- The theorems about the TLA operations at concrete inputs.
use mathlib.Core.List.{Permᴰ}
use committer.Go.{ok}
use committer.Prelude.{true, ◌≡◌, refl, none, some, [], ◌∷◌, arith}
use committer.Tla.{ℤ, pos, negsuc, Items, int, str, no_items, item, Fields}
use committer.Tla.Ops.{set_in}
use committer.Tla.Sequences.{Compared, is_prefix-Compared}
use committer.Tla.Integers.{InRange, int_plus, int_minus, int_minus-int_plus, int_lte}
use committer.Tla.Sets.{min_of, max_of, min_of-max_of-Perm}
use committer.Tla.Ranges.{range_incl, range_incl-none}
use committer.Tla.Ranges.Contents.{range_incl-set_in}

abbrev parties : Items
parties = item (str "r1") (item (str "r2") no_items)

is_prefix-Compared_example : Compared parties (item (str "r1") no_items)
is_prefix-Compared_example = is_prefix-Compared parties (item (str "r1") no_items)

range_incl-set_in_example :
    (m : Fields) × (range_incl 4 (pos 2) (pos 5) ≡ some (ok m)) × (set_in (int (pos 3)) m ≡ ok true)
unfolding int_lte
range_incl-set_in_example =
    range_incl-set_in 4 (pos 2) (pos 5) (pos 3) (omega arith) (omega arith) (omega arith)
      (omega arith) (omega arith)

abbrev greatest_int : ℤ
greatest_int = pos 9223372036854775807

greatest_int-InRange : InRange greatest_int
greatest_int-InRange = omega arith

int_minus-int_plus_example :
    InRange (int_plus greatest_int (pos 1))
    × (int_minus (int_plus greatest_int (pos 1)) (pos 1) ≡ greatest_int)
int_minus-int_plus_example = int_minus-int_plus greatest_int (pos 1) greatest_int-InRange

min_of-max_of-Perm_example :
    (min_of (int (pos 3) ∷ int (negsuc 4) ∷ []) ≡ min_of (int (negsuc 4) ∷ int (pos 3) ∷ []))
    × (max_of (int (pos 3) ∷ int (negsuc 4) ∷ []) ≡ max_of (int (negsuc 4) ∷ int (pos 3) ∷ []))
min_of-max_of-Perm_example =
    min_of-max_of-Perm (int (pos 3) ∷ int (negsuc 4) ∷ []) (int (negsuc 4) ∷ int (pos 3) ∷ [])
      (Permᴰ.swap refl refl)

range_incl-none_example : range_incl 100 (pos 2) (pos 9223372036854775807) ≡ none
range_incl-none_example = range_incl-none 100 (pos 2) (omega arith)
