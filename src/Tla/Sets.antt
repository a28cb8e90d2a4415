-- ===== src/Tla/Sets.antt =====
-- The operations on sets that the checks of the monitor leave unused
-- (server/TwoPhaseCommitFull.go). A loop over a Go map may visit the elements in any order: it is a
-- function of the list of them in the order of the visit.
use mathlib.Core.List.{Permᴰ}
use committer.Prelude.{
  ℕ, suc, ◌≡◌, refl, ap, ◌∙◌, Bool, true, false, not, ◌||◌, String, List, [], ◌∷◌, str_eq, eq_iff,
  if◌then◌else◌, arith, Bool-cases, inl, inr, ◌⊎◌,
}
use committer.Go.{Go, ok, panic, type_assertion, ◌>>=◌}
use committer.Tla.{
  ℤ, pos, negsuc, Tla, Items, Fields, nil, int, bool, str, seq, rec, set, no_fields, field, items,
  lookup, put,
}
use committer.Tla.Ops.{as_bool, as_string, as_int, set_in, is_some}
use committer.Tla.Print.{hash}
use committer.Tla.Maps.{lookup-put}
use committer.Tla.Integers.{int_lt, int_gt}

-- The elements of a set.
unfoldable pub elements : Fields → List Tla
elements no_fields = []
elements (field k v m) = v ∷ elements m

unfoldable pub cardinality : Fields → ℕ
cardinality no_fields = 0
cardinality (field k v m) = suc (cardinality m)

-- `SetUnion`
unfoldable pub set_union : Fields → Fields → Fields
unfolding put
set_union a no_fields = a
set_union a (field k v b) = set_union (put k v a) b

-- `BoundedForall`: once an element has failed, the predicate is not asked again.
forall_from : Bool → List Tla → (Tla → Go Tla) → Go Bool
unfolding as_bool
forall_from res [] f = ok res
forall_from false (v ∷ vs) f = forall_from false vs f
forall_from true (v ∷ vs) f = do r ← f v; b ← as_bool r; forall_from b vs f

unfoldable pub bounded_forall : List Tla → (Tla → Go Tla) → Go Bool
unfolding forall_from
bounded_forall vs f = forall_from true vs f

-- `BoundedExists`
exists_from : Bool → List Tla → (Tla → Go Tla) → Go Bool
unfolding as_bool
exists_from res [] f = ok res
exists_from true (v ∷ vs) f = exists_from true vs f
exists_from false (v ∷ vs) f = do r ← f v; b ← as_bool r; exists_from b vs f

unfoldable pub bounded_exists : List Tla → (Tla → Go Tla) → Go Bool
unfolding exists_from
bounded_exists vs f = exists_from false vs f

-- `FnConstruct`
construct_from : Fields → List Tla → (Tla → Tla) → Go Fields
unfolding as_string put
construct_from res [] f = ok res
construct_from res (v ∷ vs) f = do k ← as_string v; construct_from (put k (f v) res) vs f

unfoldable pub fn_construct : List Tla → (Tla → Tla) → Go Fields
unfolding construct_from
fn_construct vs f = construct_from no_fields vs f

-- `SetToSeq`
unfoldable pub set_to_seq : List Tla → Items
unfolding items
set_to_seq vs = items vs

-- The loops of `Min` and `Max`, from the value so far; the order says which value replaces it.
best_from : (ℤ → ℤ → Bool) → ℤ → List Tla → Go ℤ
unfolding as_int
best_from better res [] = ok res
best_from better res (v ∷ vs) = do
  n ← as_int v
  best_from better (if better n res then n else res) vs

-- `Min`, from `math.MaxInt`, and `Max`, from `math.MinInt`
unfoldable pub min_of : List Tla → Go ℤ
unfolding best_from int_lt
min_of vs = best_from int_lt (pos 9223372036854775807) vs

unfoldable pub max_of : List Tla → Go ℤ
unfolding best_from int_gt
max_of vs = best_from int_gt (negsuc 9223372036854775807) vs

is_some-put :
    (j k : String) (v : Tla) (a : Fields)
    → is_some (lookup j (put k v a)) ≡ (str_eq k j || is_some (lookup j a))
is_some-put j k v a =
    rw (lookup-put j k v a)
      (elim (Bool-cases (str_eq k j)) [ inl same ↦ rw same refl | inr other ↦ rw other refl ])

is_some-field :
    (j k : String) (v : Tla) (b : Fields)
    → is_some (lookup j (field k v b)) ≡ (str_eq k j || is_some (lookup j b))
unfolding lookup
is_some-field j k v b = ground (arith, eq_iff k j, eq_iff j k)

or_right_unit : (x : Bool) → x ≡ (x || false)
or_right_unit x = ground arith

or_swap : (x y z : Bool) → ((x || y) || z) ≡ (y || (x || z))
or_swap x y z = ground arith

is_some-set_union :
    (j : String) (a b : Fields)
    → is_some (lookup j (set_union a b)) ≡ (is_some (lookup j a) || is_some (lookup j b))
unfolding set_union lookup
is_some-set_union j a no_fields = or_right_unit (is_some (lookup j a))
is_some-set_union j a (field k v b) =
    is_some-set_union j (put k v a) b
    ∙ rw (is_some-put j k v a, is_some-field j k v b)
        (or_swap (str_eq k j) (is_some (lookup j a)) (is_some (lookup j b)))

-- An element is in the union of two sets exactly when it is in one of them. An element that cannot be
-- printed makes all three tests panic.
set_in-set_union :
    (v : Tla) (a b : Fields)
    → set_in v (set_union a b) ≡ (do x ← set_in v a; y ← set_in v b; ok (x || y))
unfolding set_in
set_in-set_union v a b = go (hash v)
  where
    go :
        (h : Go String)
        → (h >>= λ k. ok (is_some (lookup k (set_union a b)))) ≡ (
            (h >>= λ k. ok (is_some (lookup k a))) >>= λ x.
            (h >>= λ k. ok (is_some (lookup k b))) >>= λ y. ok (x || y))
    go (ok k) = ap ok (is_some-set_union k a b)
    go (panic p) = refl

as_bool-cases : (v : Tla) → ((b : Bool) × (as_bool v ≡ ok b)) ⊎ (as_bool v ≡ panic type_assertion)
unfolding as_bool
as_bool-cases (bool b) = inl (b, refl)
as_bool-cases nil = inr refl
as_bool-cases (int n) = inr refl
as_bool-cases (str s) = inr refl
as_bool-cases (seq vs) = inr refl
as_bool-cases (rec m) = inr refl
as_bool-cases (set m) = inr refl

as_int-cases : (v : Tla) → ((n : ℤ) × (as_int v ≡ ok n)) ⊎ (as_int v ≡ panic type_assertion)
unfolding as_int
as_int-cases (int n) = inl (n, refl)
as_int-cases nil = inr refl
as_int-cases (bool b) = inr refl
as_int-cases (str s) = inr refl
as_int-cases (seq vs) = inr refl
as_int-cases (rec m) = inr refl
as_int-cases (set m) = inr refl

-- The predicate that answers the opposite.
abbrev pub negation : (Tla → Go Tla) → Tla → Go Tla
negation f v = f v >>= λ r. as_bool r >>= λ b. ok (bool (not b))

exists_from-forall_from :
    (res : Bool) (vs : List Tla) (f : Tla → Go Tla)
    → exists_from res vs f ≡ (forall_from (not res) vs (negation f) >>= λ b. ok (not b))
unfolding exists_from forall_from
exists_from-forall_from res [] f = ground arith
exists_from-forall_from true (v ∷ vs) f = exists_from-forall_from true vs f
exists_from-forall_from false (v ∷ vs) f = go (λ b. exists_from-forall_from b vs f) (f v)
  where
    go :
        ((b : Bool)
          → exists_from b vs f ≡ (forall_from (not b) vs (negation f) >>= λ c. ok (not c)))
        → (r : Go Tla)
        → (r >>= λ x. as_bool x >>= λ b. exists_from b vs f) ≡ (
            ((r >>= λ x. as_bool x >>= λ b. ok (bool (not b))) >>= λ x.
            as_bool x >>= λ b. forall_from b vs (negation f))
            >>= λ b. ok (not b))
    go rest (panic p) = refl
    go rest (ok x) = elim (as_bool-cases x) [
      | inl (b, is) ↦ rw is (rest b)
      | inr other ↦ rw other refl
    ]

-- `BoundedExists` is `BoundedForall` of the opposite predicate, negated, in any order of the visit
-- and with the same panics.
bounded_exists-bounded_forall :
    (vs : List Tla) (f : Tla → Go Tla)
    → bounded_exists vs f ≡ (bounded_forall vs (negation f) >>= λ b. ok (not b))
unfolding bounded_exists bounded_forall
bounded_exists-bounded_forall vs f = exists_from-forall_from false vs f

-- Two elements may be met in either order.
abbrev Swaps : (ℤ → ℤ → Bool) → Type 0
Swaps better =
    (m n res : ℤ)
    → (let x = if better m res then m else res in if better n x then n else x)
      ≡ (let x = if better n res then n else res in if better m x then m else x)

int_lt-Swaps : Swaps int_lt
unfolding int_lt
int_lt-Swaps m n res = ground arith

int_gt-Swaps : Swaps int_gt
unfolding int_gt int_lt
int_gt-Swaps m n res = ground arith

best_from-Perm :
    (better : ℤ → ℤ → Bool)
    → Swaps better
    → {vs ws : List Tla} (res : ℤ) → Permᴰ vs ws
    → best_from better res vs ≡ best_from better res ws
unfolding best_from
best_from-Perm better h res (Permᴰ.nil) = refl
best_from-Perm better h res (Permᴰ.cons {b = v} e d) = rw e (elim (as_int-cases v) [
  | inl (n, is) ↦ rw is (best_from-Perm better h (if better n res then n else res) d)
  | inr other ↦ rw other refl
])
best_from-Perm better h res (Permᴰ.swap {a' = v} {b' = w} {l = l} e e') =
    rw (e, e')
      (elim (as_int-cases v) [
        | inl (m, is) ↦ rw is (elim (as_int-cases w) [
          | inl (n, is') ↦ rw is' (ap (λ x. best_from better x l) (h n m res))
          | inr other ↦ rw other refl
        ])
        | inr other ↦
            rw other
              (elim (as_int-cases w) [ inl (n, is') ↦ rw is' refl | inr other' ↦ rw other' refl ])
      ])
best_from-Perm better h res (Permᴰ.trans d d') =
    best_from-Perm better h res d ∙ best_from-Perm better h res d'

-- What `Min` and `Max` answer, a panic on an element that is no number included, does not depend on
-- the order in which the loop over the map meets the elements.
pub min_of-max_of-Perm :
    (vs ws : List Tla) → Permᴰ vs ws → (min_of vs ≡ min_of ws) × (max_of vs ≡ max_of ws)
unfolding min_of max_of
min_of-max_of-Perm vs ws d = (
  best_from-Perm int_lt int_lt-Swaps (pos 9223372036854775807) d,
  best_from-Perm int_gt int_gt-Swaps (negsuc 9223372036854775807) d,
)
