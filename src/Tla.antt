-- ===== src/Tla.antt =====
-- The values of the monitor (server/TwoPhaseCommitFull.go, `TLA` and the types that implement it).
-- A Go map with string keys is its list of entries in the order of the keys: `put` keeps them in
-- that order, one entry to a key, so that two maps are equal exactly when their lists are.
pub mod Print
pub mod Decimal
pub mod Shared
pub mod Logic
pub mod Ops
pub mod Equality
pub mod Maps
pub mod Sequences
pub mod Integers
pub mod Sets
pub mod Ranges
use Prim.Native.Nat.{Ordering}
use Prim.Native.String.{compare}
use committer.Prelude.{ℕ, Bool, String, Option, none, some, List, [], ◌∷◌}

-- A Go `int`; overflow does not occur in what the monitor computes. `negsuc n` is -(n + 1).
pub data ℤ : Type 0 where
  pos : ℕ → ℤ
  negsuc : ℕ → ℤ

mutual
  -- `nil` is the nil interface value.
  pub data Tla : Type 0 where
    nil : Tla
    int : ℤ → Tla
    bool : Bool → Tla
    str : String → Tla
    seq : Items → Tla
    rec : Fields → Tla
    set : Fields → Tla

  pub data Items : Type 0 where
    no_items : Items
    item : Tla → Items → Items

  pub data Fields : Type 0 where
    no_fields : Fields
    field : String → Tla → Fields → Fields

-- `m[k]`; a missing key is answered by the second result of Go, here by `none`.
unfoldable pub lookup : String → Fields → Option Tla
lookup k no_fields = none
lookup k (field j v m) = elim (compare k j) [ Ordering.eq ↦ some v | _ ↦ lookup k m ]

-- `m[k] = v`
unfoldable pub put : String → Tla → Fields → Fields
put k v no_fields = field k v no_fields
put k v (field j w m) = elim (compare k j) [
  | Ordering.lt ↦ field k v (field j w m)
  | Ordering.eq ↦ field k v m
  | Ordering.gt ↦ field j w (put k v m)
]

unfoldable pub items : List Tla → Items
items [] = no_items
items (v ∷ vs) = item v (items vs)

unfoldable pub append : Items → Items → Items
append no_items ys = ys
append (item x xs) ys = item x (append xs ys)
