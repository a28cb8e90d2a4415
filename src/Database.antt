-- ===== src/Database.antt =====
-- db/iface.go and db/badger.go. The store of Badger is not under this repository: its transactions
-- are the fields of `Badger`, and `DatabaseLaws` is what the server relies on, that a key written is
-- read back and that other keys keep their values.
use committer.Prelude.{
  ◌≡◌, ◌≢◌, String, Option, none, some, str_eq, eq_iff, if◌then◌else◌, ap, Bool-cases, inl, inr,
}
use text.Mathlib.TextPositions.{eq_refl}
use committer.Proto.{Bytes, Error}

pub data Result {ℓ} (A : Type ℓ) : Type ℓ where
  ok : A → Result A
  err : Error → Result A

-- `txn.Set` inside `Update`, and `txn.Get` inside `View` with the value of its item.
pub record Badger : Type 1 where
  pub Store : Type 0
  pub txn_set : String → Bytes → Store → Result Store
  pub txn_get : String → Store → Result Bytes

-- The interface `Database`; `Close` has no effect on what is stored.
pub record Database : Type 1 where
  pub State : Type 0
  pub put : State → String → Bytes → Result State
  pub get : State → String → Result Bytes

unfoldable pub badger_db : Badger → Database
badger_db b = record { State = b.Store; put = λ d k v. b.txn_set k v d; get = λ d k. b.txn_get k d }

-- What the server relies on of a database.
pub record DatabaseLaws (db : Database) : Type 0 where
  pub get-put :
      (d d' : db.State) (k : String) (v : Bytes) → db.put d k v ≡ ok d' → db.get d' k ≡ ok v
  pub get-put_ne :
      (d d' : db.State) (k j : String) (v : Bytes)
      → db.put d k v ≡ ok d'
      → j ≢ k
      → db.get d' j ≡ db.get d j

-- A store in memory whose every write succeeds.
abbrev pub in_memory : Database
in_memory = record {
  State = String → Option Bytes;
  put = λ d k v. ok (λ j. if str_eq j k then some v else d j);
  get = λ d k. elim (d k) [ none ↦ err (Error.other "Key not found") | some v ↦ ok v ];
}

or_old : (String → Option Bytes) → Result (String → Option Bytes) → String → Option Bytes
or_old d (ok d') = d'
or_old d (err _) = d

written :
    (d d' : String → Option Bytes) (k : String) (v : Bytes)
    → in_memory.put d k v ≡ ok d'
    → (λ j. if str_eq j k then some v else d j) ≡ d'
unfolding or_old
written d d' k v h = ap (or_old d) h

read_back :
    (d d' : String → Option Bytes) (k : String) (v : Bytes)
    → in_memory.put d k v ≡ ok d'
    → in_memory.get d' k ≡ ok v
read_back d d' k v h = rw (← written d d' k v h) (rw (eq_refl k))

read_other :
    (d d' : String → Option Bytes) (k j : String) (v : Bytes)
    → in_memory.put d k v ≡ ok d'
    → j ≢ k
    → in_memory.get d' j ≡ in_memory.get d j
read_other d d' k j v h ne = elim (Bool-cases (str_eq j k)) [
  | inl same ↦ absurd (ne ((eq_iff j k).0 same))
  | inr other_key ↦ rw (← written d d' k v h) (rw other_key)
]

pub in_memory-DatabaseLaws : DatabaseLaws in_memory
in_memory-DatabaseLaws = record { get-put = read_back; get-put_ne = read_other }
