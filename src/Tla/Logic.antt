-- ===== src/Tla/Logic.antt =====
-- The Boolean operations on TLA values (server/TwoPhaseCommitFull.go).
use committer.Prelude.{
  ◌≡◌, ◌≢◌, ◌↔◌, refl, Bool, true, not, ◌&&◌, ◌||◌, List, [], ◌∷◌, Bool-cases, inl, inr,
}
use committer.Go.{Go, ok, ◌>>=◌}
use committer.Tla.{Tla, Fields, no_fields, put}
use committer.Tla.Ops.{eq}
use committer.Tla.Print.{hash}
use committer.Tla.Equality.{eq-eq-true}

unfoldable pub tla_not : Bool → Bool
tla_not b = not b

unfoldable pub tla_and : Bool → Bool → Bool
tla_and a b = a && b

unfoldable pub tla_or : Bool → Bool → Bool
tla_or a b = a || b

unfoldable pub neq : Tla → Tla → Bool
unfolding tla_not eq
neq a b = tla_not (eq a b)

-- `set(elts...)`: each element under the text of its value.
set_from : Fields → List Tla → Go Fields
unfolding hash put
set_from res [] = ok res
set_from res (v ∷ vs) = do k ← hash v; set_from (put k v res) vs

unfoldable pub set_of : List Tla → Go Fields
unfolding set_from
set_of elts = set_from no_fields elts

-- `Neq` answers true exactly on different values.
neq-eq-true : (a b : Tla) → (neq a b ≡ true) ↔ (a ≢ b)
unfolding neq tla_not
neq-eq-true a b = (
  λ h same. let e = (eq-eq-true a b).1 same in cc (rw e at h),
  λ other. elim (Bool-cases (eq a b)) [
    | inl e ↦ absurd (other ((eq-eq-true a b).0 e))
    | inr e ↦ rw e refl
  ],
)
