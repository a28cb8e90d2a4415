-- ===== src/Tla/Print.antt =====
-- The `String` methods of the TLA values and `hash` (server/TwoPhaseCommitFull.go). A map prints in
-- the order of its keys, which is the order of its entries. The method of a nil value panics.
use Prim.Native.String.{◌++◌}
use committer.Prelude.{ℕ, zero, suc, ◌+◌, ◌%◌, Bool, true, false, String, ltb, if◌then◌else◌}
use committer.Go.{Go, ok, panic, nil_dereference, ◌>>=◌}
use committer.Tla.{
  ℤ, pos, negsuc, Tla, Items, Fields, nil, int, bool, str, seq, rec, set, no_items, item, no_fields,
  field,
}
use Prim.Native.Nat.{◌/◌}

unfoldable pub digit : ℕ → String
digit zero = "0"
digit (suc zero) = "1"
digit (suc (suc zero)) = "2"
digit (suc (suc (suc zero))) = "3"
digit (suc (suc (suc (suc zero)))) = "4"
digit (suc (suc (suc (suc (suc zero))))) = "5"
digit (suc (suc (suc (suc (suc (suc zero)))))) = "6"
digit (suc (suc (suc (suc (suc (suc (suc zero))))))) = "7"
digit (suc (suc (suc (suc (suc (suc (suc (suc zero)))))))) = "8"
digit _ = "9"

-- The digits of `n`, with as much fuel as `n` is large.
unfoldable pub decimal : ℕ → ℕ → String
unfolding digit
decimal zero n = digit n
decimal (suc fuel) n =
    let rest = decimal fuel (n / 10) in if ltb n 10 then digit n else rest ++ digit (n % 10)

-- `%d`
unfoldable pub decimal_ℕ : ℕ → String
unfolding decimal
decimal_ℕ n = decimal n n

unfoldable pub print_ℤ : ℤ → String
unfolding decimal_ℕ
print_ℤ (pos n) = decimal_ℕ n
print_ℤ (negsuc n) = "-" ++ decimal_ℕ (n + 1)

print_bool : Bool → String
print_bool true = "true"
print_bool false = "false"

-- `strings.Join(ss, ", ")`, one element in front of those printed before it.
join : String → Items → String → String
join s no_items rest = s
join s (item _ _) rest = s ++ ", " ++ rest

join_fields : String → Fields → String → String
join_fields s no_fields rest = s
join_fields s (field _ _ _) rest = s ++ ", " ++ rest

unfoldable mutual
  unfolding print_ℤ print_bool join join_fields

  pub hash : Tla → Go String
  hash nil = panic nil_dereference
  hash (int n) = ok (print_ℤ n)
  hash (bool b) = ok (print_bool b)
  hash (str s) = ok s
  hash (seq vs) = do s ← print_items vs; ok ("<<" ++ s ++ ">>")
  hash (rec m) = do s ← print_record m; ok ("[" ++ s ++ "]")
  hash (set m) = do s ← print_set m; ok ("{" ++ s ++ "}")

  pub print_items : Items → Go String
  print_items no_items = ok ""
  print_items (item v vs) = do s ← hash v; rest ← print_items vs; ok (join s vs rest)

  pub print_record : Fields → Go String
  print_record no_fields = ok ""
  print_record (field k v m) = do
    s ← hash v
    rest ← print_record m
    ok (join_fields (k ++ " |-> " ++ s) m rest)

  pub print_set : Fields → Go String
  print_set no_fields = ok ""
  print_set (field k v m) = do s ← hash v; rest ← print_set m; ok (join_fields s m rest)
