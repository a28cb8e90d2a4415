-- ===== src/Tla/Maps.antt =====
-- The laws of the maps inside TLA values.
use committer.Prelude.{
  ◌≡◌, String, some, arith, str_eq, eq_iff, if◌then◌else◌, Bool-cases, inl, inr,
}
use committer.Tla.Ops.{record_index, except}
use committer.Tla.{Tla, Fields, no_fields, field, lookup, put}

pub lookup-put :
    (j k : String) (v : Tla) (m : Fields)
    → lookup j (put k v m) ≡ (if str_eq k j then some v else lookup j m)
unfolding lookup put
lookup-put j k v no_fields = ground (arith, eq_iff k j, eq_iff j k)
lookup-put j k v (field i w m) =
    ground (arith, eq_iff k j, eq_iff j k, eq_iff k i, eq_iff j i, lookup-put j k v m)

-- `RecordIndex` of `Except`: the new value at the key that was set, the old one elsewhere.
record_index-except :
    (j k : String) (v : Tla) (m : Fields)
    → record_index (except m k v) j ≡ (if str_eq k j then v else record_index m j)
unfolding record_index except
record_index-except j k v m = elim (Bool-cases (str_eq k j)) [
  | inl same ↦ rw (lookup-put j k v m, same)
  | inr other ↦ rw (lookup-put j k v m, other)
]
