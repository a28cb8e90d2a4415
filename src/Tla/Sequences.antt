-- ===== src/Tla/Sequences.antt =====
-- The operations on sequences that the checks of the monitor leave unused, and what `IsPrefix`
-- answers (server/TwoPhaseCommitFull.go).
use committer.Prelude.{
  ℕ, suc, ◌≡◌, ◌≢◌, refl, ap, subst, Bool, true, false, ◌==◌, if◌then◌else◌, Bool-cases, inl, inr,
}
use committer.Go.{Go, ok, panic, index_out_of_range, ◌>>=◌}
use committer.Tla.{ℤ, pos, Tla, Items, no_items, item, append}
use committer.Tla.Ops.{eq, as_bool}
use committer.Tla.Equality.{eq-eq-true, eq_self}

-- `Some` and `None`
unfoldable pub some_of : Tla → Items
some_of a = item a no_items

unfoldable pub none_of : Items
none_of = no_items

-- `FoldSeq`
unfoldable pub fold_seq : (Tla → Tla → Tla) → Tla → Items → Tla
fold_seq f base no_items = base
fold_seq f base (item v vs) = fold_seq f (f v base) vs

-- `TLAIndex(i.value) != j`
at_index : ℤ → ℕ → Bool
at_index (pos (suc i)) j = i == j
at_index _ j = false

remove_from : ℕ → ℤ → Items → Items
unfolding at_index
remove_from j i no_items = no_items
remove_from j i (item v vs) =
    let rest = remove_from (suc j) i vs in if at_index i j then rest else item v rest

-- `RemoveAt`
unfoldable pub remove_at : Items → ℤ → Items
unfolding remove_from
remove_at s i = remove_from 0 i s

-- `SelectSeq`
unfoldable pub select_seq : Items → (Tla → Go Tla) → Go Items
unfolding as_bool
select_seq no_items f = ok no_items
select_seq (item v vs) f = do
  r ← f v
  b ← as_bool r
  rest ← select_seq vs f
  ok (if b then item v rest else rest)

-- `IsPrefix`
unfoldable pub is_prefix : Items → Items → Go Bool
unfolding eq
is_prefix no_items ys = ok true
is_prefix (item x xs) no_items = panic index_out_of_range
is_prefix (item x xs) (item y ys) = let rest = is_prefix xs ys in if eq x y then rest else ok false

-- How two sequences compare: the first is a prefix of the second, the second is a shorter prefix of
-- the first, or they differ at a position.
pub data Compared (xs ys : Items) : Type 0 where
  prefix : (zs : Items) → ys ≡ append xs zs → is_prefix xs ys ≡ ok true → Compared xs ys
  longer :
      (z : Tla) (zs : Items)
      → xs ≡ append ys (item z zs)
      → is_prefix xs ys ≡ panic index_out_of_range
      → Compared xs ys
  differ :
      (ws us vs : Items) (u v : Tla)
      → xs ≡ append ws (item u us)
      → ys ≡ append ws (item v vs)
      → u ≢ v
      → is_prefix xs ys ≡ ok false
      → Compared xs ys

Compared-item : (x : Tla) (xs ys : Items) → Compared xs ys → Compared (item x xs) (item x ys)
unfolding is_prefix append
Compared-item x xs ys (prefix zs e h) = prefix zs (ap (item x) e) (rw (eq_self x, is_prefix) h)
Compared-item x xs ys (longer z zs e h) = longer z zs (ap (item x) e) (rw (eq_self x, is_prefix) h)
Compared-item x xs ys (differ ws us vs u v e e' ne h) =
    differ (item x ws) us vs u v (ap (item x) e) (ap (item x) e') ne (rw (eq_self x, is_prefix) h)

-- `IsPrefix` answers true exactly on a prefix and false where the sequences differ at a position; it
-- panics where the second sequence is a shorter prefix of the first.
pub is_prefix-Compared : (xs ys : Items) → Compared xs ys
unfolding is_prefix append
is_prefix-Compared no_items ys = prefix ys refl refl
is_prefix-Compared (item x xs) no_items = longer x xs refl refl
is_prefix-Compared (item x xs) (item y ys) = elim (Bool-cases (eq x y)) [
  | inl same ↦
      subst (λ z. Compared (item x xs) (item z ys)) ((eq-eq-true x y).0 same)
        (Compared-item x xs ys (is_prefix-Compared xs ys))
  | inr other ↦ differ no_items xs ys x y refl refl (λ p. cc ((eq-eq-true x y).1 p)) (rw other)
]
