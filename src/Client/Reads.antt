-- ===== src/Client/Reads.antt =====
-- What the rounds of the client write, and when it goes on (examples/client/client.go).
use committer.Prelude.{
  ℕ, zero, suc, ◌≡◌, ◌≢◌, ◌<◌, inl, inr, refl, sym, ap, true, String, Bool-cases, str_eq, eq_iff,
  arith,
}
use committer.Proto.{Reply}
use committer.Tla.Print.{decimal_ℕ}
use committer.Tla.Decimal.{decimal_ℕ-injective, prefix-injective}
use committer.Database.{ok}
use committer.Server.Handlers.{acknowledges}
use committer.Cluster.{Control, continue, exit, crash, out_of_fuel, client_side}
use committer.Cluster.Replicas.{View, write}
use committer.Client.{carried, answer_lost, finished, heard, judge, nth_entry}

-- The store once the rounds below `n` have been written.
abbrev pub written : ℕ → View → View
written zero v = v
written (suc n) v = write (nth_entry n) (written n v)

nth_entry-injective : (m n : ℕ) → (nth_entry m).key ≡ (nth_entry n).key → m ≡ n
unfolding nth_entry
nth_entry-injective m n h =
    decimal_ℕ-injective m n (prefix-injective "key" (decimal_ℕ m) (decimal_ℕ n) h)

pub below_zero : (i : ℕ) → i < 0 → ⊥
below_zero i lt = omega (arith, lt)

-- What is read under the key of a round that has been written.
pub written-nth_entry :
    (n i : ℕ) (v : View) → i < n → written n v (nth_entry i).key ≡ ok (nth_entry i).value
written-nth_entry zero i v lt = absurd (below_zero i lt)
written-nth_entry (suc n) i v lt = elim (Bool-cases (str_eq (nth_entry i).key (nth_entry n).key)) [
  | inl same ↦
      let at : i ≡ n =
        nth_entry-injective i n ((eq_iff (nth_entry i).key (nth_entry n).key).0 same) in
      rw same (ap (λ j. ok (nth_entry j).value) (sym at))
  | inr other ↦
      let before : i ≢ n = λ at.
        cc (
          other,
          (eq_iff (nth_entry i).key (nth_entry n).key).1 (ap (λ j. (nth_entry j).key) at),
        ) in
      rw other (written-nth_entry n i v (omega (arith, lt, before)))
]

-- What is read under a key of no round.
pub written-ne :
    (n : ℕ) (k : String) (v : View)
    → ((i : ℕ) → i < n → k ≢ (nth_entry i).key)
    → written n v k ≡ v k
written-ne zero k v other = refl
written-ne (suc n) k v other = elim (Bool-cases (str_eq k (nth_entry n).key)) [
  | inl same ↦ absurd (other n (omega arith) ((eq_iff k (nth_entry n).key).0 same))
  | inr differs ↦ rw differs (written-ne n k v (λ i lt. other i (omega (arith, lt))))
]

-- A client that goes on has heard of an acknowledgement.
judge-finished :
    (c : Control) → judge c ≡ finished → (r : Reply) × (c ≡ exit r) × (acknowledges r ≡ true)
unfolding judge acknowledges
judge-finished (exit r) h = (r, refl, ground (arith, h))
judge-finished continue h = cc
judge-finished out_of_fuel h = cc
judge-finished (crash p) h = cc

pub heard-finished :
    (c : Control)
    → judge (heard carried c) ≡ finished
    → (r : Reply) × (c ≡ exit r) × (acknowledges r ≡ true)
unfolding judge acknowledges client_side
heard-finished (exit r) h = (r, refl, ground (arith, h))
heard-finished continue h = cc
heard-finished out_of_fuel h = cc
heard-finished (crash p) h = cc

pub heard-lost : (c : Control) → judge (heard answer_lost c) ≢ finished
unfolding judge
heard-lost (exit r) = λ h. cc h
heard-lost continue = λ h. cc h
heard-lost out_of_fuel = λ h. cc h
heard-lost (crash p) = λ h. cc h
