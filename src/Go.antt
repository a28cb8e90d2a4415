-- ===== src/Go.antt =====
-- What a Go function does besides returning: it may panic. `violated` is the panic of `fail` in
-- server/TwoPhaseCommitFull.go, whose flag `crash` is true and is never assigned; the text names
-- the action and the clause that did not hold.
use committer.Prelude.{Bool, true, false, String}

pub data Panic : Type 0 where
  violated : String → Panic
  type_assertion nil_dereference index_out_of_range uncomparable divide_by_zero : Panic

pub data Go {ℓ} (A : Type ℓ) : Type ℓ where
  ok : A → Go A
  panic : Panic → Go A

infixl 5 ◌>>=◌ ◌>>◌
abbrev pub ◌>>=◌ {ℓ κ} : {A : Type ℓ} → {B : Type κ} → Go A → (A → Go B) → Go B
panic reason >>= next = panic reason
ok result >>= next = next result

abbrev pub ◌>>◌ {κ} : {B : Type κ} → Go (Unit {0}) → Go B → Go B
first >> second = first >>= λ done. second

-- `if IsFalse(b) { return fail(...) }`
abbrev pub require : Bool → String → Go (Unit {0})
require true clause = ok tt
require false clause = panic (violated clause)
