-- ===== src/Tla/Equality.antt =====
-- What `Eq` of server/TwoPhaseCommitFull.go decides, which is `reflect.DeepEqual` on TLA values.
use text.Mathlib.TextPositions.{eq_refl as str_eq_refl}
use committer.Prelude.{◌≡◌, refl, ◌↔◌, Bool, true, ◌&&◌, arith, str_eq, eq_iff, and-eq_true}
use committer.Tla.{
  ℤ, Tla, Items, Fields, nil, int, bool, str, seq, rec, set, no_items, item, no_fields, field,
}
use committer.Tla.Ops.{eq, eq_items, eq_fields, eq_ℤ, eq_bool}

eq_ℤ-sound : (m n : ℤ) → eq_ℤ m n ≡ true → m ≡ n
unfolding eq_ℤ
eq_ℤ-sound m n h = ground arith

eq_ℤ-refl : (n : ℤ) → eq_ℤ n n ≡ true
unfolding eq_ℤ
eq_ℤ-refl n = ground arith

eq_bool_sound : (a b : Bool) → eq_bool a b ≡ true → a ≡ b
unfolding eq_bool
eq_bool_sound a b h = ground arith

eq_bool_refl : (b : Bool) → eq_bool b b ≡ true
unfolding eq_bool
eq_bool_refl b = ground arith

mutual
  unfolding eq eq_items eq_fields

  sound : (a b : Tla) → eq a b ≡ true → a ≡ b
  sound nil b h = ground arith
  sound (int m) (int n) h = ground (arith, eq_ℤ-sound m n)
  sound (bool a) (bool b) h = ground (arith, eq_bool_sound a b)
  sound (str s) (str t) h = ground (arith, eq_iff s t)
  sound (seq xs) (seq ys) h = ground (arith, sound_items xs ys)
  sound (rec m) (rec n) h = ground (arith, sound_fields m n)
  sound (set m) (set n) h = ground (arith, sound_fields m n)
  sound _ _ h = ground arith

  sound_items : (xs ys : Items) → eq_items xs ys ≡ true → xs ≡ ys
  sound_items no_items ys h = ground arith
  sound_items (item x xs) no_items h = ground arith
  sound_items (item x xs) (item y ys) h = ground (arith, sound x y, sound_items xs ys)

  sound_fields : (m n : Fields) → eq_fields m n ≡ true → m ≡ n
  sound_fields no_fields n h = ground arith
  sound_fields (field k v m) no_fields h = ground arith
  sound_fields (field k v m) (field j w n) h =
      let (p, rest) = and-eq_true (str_eq k j) (eq v w && eq_fields m n) h in
      let (q, r) = and-eq_true (eq v w) (eq_fields m n) rest in
      cc ((eq_iff k j).0 p, sound v w q, sound_fields m n r)

mutual
  unfolding eq eq_items eq_fields

  refl_value : (a : Tla) → eq a a ≡ true
  refl_value nil = refl
  refl_value (int n) = eq_ℤ-refl n
  refl_value (bool b) = eq_bool_refl b
  refl_value (str s) = str_eq_refl s
  refl_value (seq xs) = refl_items xs
  refl_value (rec m) = refl_fields m
  refl_value (set m) = refl_fields m

  refl_items : (xs : Items) → eq_items xs xs ≡ true
  refl_items no_items = refl
  refl_items (item x xs) = rw (refl_value x) (refl_items xs)

  refl_fields : (m : Fields) → eq_fields m m ≡ true
  refl_fields no_fields = refl
  refl_fields (field k v m) = rw (str_eq_refl k, refl_value v) (refl_fields m)

pub eq_self : (a : Tla) → eq a a ≡ true
eq_self a = refl_value a

-- `Eq` answers true exactly on equal values.
pub eq-eq-true : (a b : Tla) → (eq a b ≡ true) ↔ (a ≡ b)
eq-eq-true a b = (sound a b, λ p. rw p (refl_value b))
