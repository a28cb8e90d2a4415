-- ===== src/Tla/Shared/Masks.antt =====
-- What shared arrays hide: the monitor compares a sequence with an extension that it makes itself,
-- of a slice in the same array (server/TwoPhaseCommitFull.go).
use committer.Prelude.{ℕ, suc, ◌≡◌, ◌<◌, sym, ap, subst, ◌∙◌, Bool, true, ltb, [], ◌∷◌, ◌++◌, arith}
use committer.Tla.{Tla, seq, items}
use committer.Tla.Ops.{eq}
use committer.Tla.Equality.{eq_self}
use committer.Tla.Shared.{Slice, Heap, elements, go_append}
use committer.Tla.Shared.Values.{go_append_room, go_append-elements}

-- `Eq(this, Append(prev, v))`, as `LogAction` is checked. The append is evaluated before `Eq` reads
-- its arguments.
unfoldable pub check_append : (grow : ℕ → ℕ) → Heap → (prev this : Slice) → Tla → Bool
unfolding go_append elements eq
check_append grow h prev this v =
    let w = go_append grow h prev v in
    eq (seq (items (elements w.0 this))) (seq (items (elements w.0 w.1)))

-- A slice that is longer by one than `prev`, in the array of `prev`, is the result of every append to
-- `prev` that finds room.
shared-go_append :
    (grow : ℕ → ℕ) (h : Heap) (prev this : Slice) (v : Tla)
    → prev.len < h.room prev.array
    → this.array ≡ prev.array
    → this.len ≡ suc prev.len
    → this ≡ (go_append grow h prev v).1
shared-go_append grow h prev this v lt same longer =
    let there : ltb prev.len (h.room prev.array) ≡ true = ground (arith, lt) in
    let slice : this ≡ record prev { len = suc prev.len } = cc (same, longer) in
    slice ∙ sym (ap (λ (w : Heap × Slice). w.1) (go_append_room grow h prev v there))

-- The check cannot fail where arrays are shared. Whatever the arrays hold, and so whatever value was
-- logged: if a slice is longer by one than another in the same array, and the array has room behind
-- the shorter one, then the check that the first is the second extended by `v` succeeds, for every
-- `v`. Afterwards the slice reads as that extension, since the append of the check has written `v`
-- over what was logged.
pub check_append-go_append :
    (grow : ℕ → ℕ) (h : Heap) (prev this : Slice) (v : Tla)
    → prev.len < h.room prev.array
    → this.array ≡ prev.array
    → this.len ≡ suc prev.len
    → (check_append grow h prev this v ≡ true)
      × (elements (go_append grow h prev v).0 this ≡ elements h prev ++ v ∷ [])
unfolding check_append
check_append-go_append grow h prev this v lt in_one longer =
    let w = go_append grow h prev v in
    let same = shared-go_append grow h prev this v lt in_one longer in
    (
      subst (λ s. eq (seq (items (elements w.0 s))) (seq (items (elements w.0 w.1))) ≡ true)
          (sym same) (eq_self (seq (items (elements w.0 w.1)))),
      ap (elements w.0) same ∙ go_append-elements grow h prev v,
    )
