-- ===== src/Tla/Ops.antt =====
-- The library of TLA operations (server/TwoPhaseCommitFull.go): type assertions, records, sets,
-- sequences. `and`, `or` and `not` of the source are the Boolean operations.
-- `append` is a value: that a slice made by Go's `append` may share its backing array with another
-- one is not modelled.
use committer.Prelude.{
  ℕ, zero, suc, Bool, true, false, not, ◌&&◌, String, Option, none, some, List, [], ◌∷◌, ◌==◌,
  str_eq, if◌then◌else◌,
}
use committer.Go.{Go, ok, panic, type_assertion, index_out_of_range, ◌>>=◌}
use committer.Tla.{
  ℤ, pos, negsuc, Tla, Items, Fields, nil, int, bool, str, seq, rec, set, no_items, item, no_fields,
  field, lookup, put,
}
use committer.Tla.Print.{hash}

-- `v.(Bool)`, `v.(Seq)`, `v.(Record)`, `v.(String)`, `v.(Int)`
unfoldable pub as_bool : Tla → Go Bool
as_bool (bool b) = ok b
as_bool _ = panic type_assertion

unfoldable pub as_seq : Tla → Go Items
as_seq (seq vs) = ok vs
as_seq _ = panic type_assertion

unfoldable pub as_record : Tla → Go Fields
as_record (rec m) = ok m
as_record _ = panic type_assertion

unfoldable pub as_string : Tla → Go String
as_string (str s) = ok s
as_string _ = panic type_assertion

unfoldable pub as_int : Tla → Go ℤ
as_int (int n) = ok n
as_int _ = panic type_assertion

-- `reflect.DeepEqual`
unfoldable pub eq_ℤ : ℤ → ℤ → Bool
eq_ℤ (pos m) (pos n) = m == n
eq_ℤ (negsuc m) (negsuc n) = m == n
eq_ℤ _ _ = false

unfoldable pub eq_bool : Bool → Bool → Bool
eq_bool true b = b
eq_bool false b = not b

unfoldable mutual
  unfolding eq_ℤ eq_bool

  pub eq : Tla → Tla → Bool
  eq nil nil = true
  eq (int m) (int n) = eq_ℤ m n
  eq (bool a) (bool b) = eq_bool a b
  eq (str s) (str t) = str_eq s t
  eq (seq xs) (seq ys) = eq_items xs ys
  eq (rec m) (rec n) = eq_fields m n
  eq (set m) (set n) = eq_fields m n
  eq _ _ = false

  pub eq_items : Items → Items → Bool
  eq_items no_items no_items = true
  eq_items (item x xs) (item y ys) = eq x y && eq_items xs ys
  eq_items _ _ = false

  pub eq_fields : Fields → Fields → Bool
  eq_fields no_fields no_fields = true
  eq_fields (field k v m) (field j w n) = str_eq k j && (eq v w && eq_fields m n)
  eq_fields _ _ = false

-- `record("k", v, ...)`
record_from : Fields → List (String × Tla) → Fields
unfolding put
record_from acc [] = acc
record_from acc ((k, v) ∷ kvs) = record_from (put k v acc) kvs

unfoldable pub record_of : List (String × Tla) → Fields
unfolding record_from
record_of kvs = record_from no_fields kvs

-- `ToSet`, and `set(...)` of the same elements: each under its printed form.
unfoldable pub to_set_from : Fields → Items → Go Fields
unfolding hash put
to_set_from acc no_items = ok acc
to_set_from acc (item v vs) = do k ← hash v; to_set_from (put k v acc) vs

unfoldable pub to_set : Items → Go Fields
unfolding to_set_from
to_set vs = to_set_from no_fields vs

abbrev pub is_some : Option Tla → Bool
is_some none = false
is_some (some _) = true

unfoldable pub set_in : Tla → Fields → Go Bool
unfolding hash lookup
set_in a b = do k ← hash a; ok (is_some (lookup k b))

unfoldable pub set_not_in : Tla → Fields → Go Bool
unfolding set_in
set_not_in a b = do found ← set_in a b; ok (not found)

abbrev or_nil : Option Tla → Tla
or_nil none = nil
or_nil (some v) = v

-- A missing key gives the nil value.
unfoldable pub record_index : Fields → String → Tla
unfolding lookup
record_index m k = or_nil (lookup k m)

nth : Items → ℕ → Go Tla
nth no_items i = panic index_out_of_range
nth (item v vs) zero = ok v
nth (item v vs) (suc i) = nth vs i

-- TLA sequences are indexed from 1.
unfoldable pub seq_index : Items → ℤ → Go Tla
unfolding nth
seq_index vs (pos (suc i)) = nth vs i
seq_index vs _ = panic index_out_of_range

unfoldable pub index_into : Tla → Tla → Go Tla
unfolding seq_index record_index as_record as_string
index_into (seq vs) (int i) = seq_index vs i
index_into a b = do m ← as_record a; k ← as_string b; ok (record_index m k)

-- `Except`
unfoldable pub except : Fields → String → Tla → Fields
unfolding put
except m k v = put k v m

-- `Remove`: every element equal to `e` goes.
unfoldable pub remove : Items → Tla → Items
unfolding eq
remove no_items e = no_items
remove (item v vs) e = let rest = remove vs e in if eq v e then rest else item v rest

unfoldable pub len : Items → ℕ
len no_items = 0
len (item _ vs) = suc (len vs)
