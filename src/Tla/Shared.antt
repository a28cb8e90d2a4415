-- ===== src/Tla/Shared.antt =====
-- `Append` of server/TwoPhaseCommitFull.go on the arrays that slices share. A slice is an array and a
-- length; Go's `append` writes into the array where it has room and copies it where it has none.
-- The rest of the development reads sequences as values; Shared/Values says when that is right, and
-- Shared/Masks what it hides.
pub mod Values
pub mod Masks
use committer.Prelude.{
  ℕ, zero, suc, ◌+◌, ◌≡◌, ◌≤◌, ◌<◌, List, [], ◌∷◌, ◌++◌, ltb, ◌==◌, if◌then◌else◌, Bool,
}
use committer.Tla.{Tla, nil}

pub record Slice : Type 0 where
  pub array : ℕ
  pub len : ℕ

-- The arrays allocated so far, each with its room and its cells.
pub record Heap : Type 0 where
  pub next : ℕ
  pub room : ℕ → ℕ
  pub cell : ℕ → ℕ → Tla

-- The first `n` cells of an array.
abbrev pub cells : (ℕ → Tla) → ℕ → List Tla
cells f zero = []
cells f (suc n) = cells f n ++ f n ∷ []

unfoldable pub elements : Heap → Slice → List Tla
elements h s = cells (h.cell s.array) s.len

abbrev pub write : (ℕ → Tla) → ℕ → Tla → ℕ → Tla
write f i v j = if j == i then v else f j

-- The array `a` with other cells, and an array of its own for a copy.
abbrev pub with_array : Heap → ℕ → (ℕ → Tla) → Heap
with_array h a f = record h { cell = λ b. if b == a then f else h.cell b }

abbrev pub allocate : Heap → ℕ → (ℕ → Tla) → Heap
allocate h size f = record {
  next = suc h.next;
  room = λ b. if b == h.next then size else h.room b;
  cell = λ b. if b == h.next then f else h.cell b;
}

-- Go's `append` of one element. `grow` is the size that the runtime gives a copy.
unfoldable pub go_append : (grow : ℕ → ℕ) → Heap → Slice → Tla → Heap × Slice
go_append grow h s v =
    let longer = write (h.cell s.array) s.len v in
    if ltb s.len (h.room s.array)
    then (with_array h s.array longer, record s { len = suc s.len })
    else (allocate h (grow (suc s.len)) longer, record { array = h.next; len = suc s.len })

-- `gs.f = Append(gs.f, v)` again and again, with the slices that the monitor has captured on the
-- way, the last one first.
unfoldable pub extend : (grow : ℕ → ℕ) → Heap → Slice → List Tla → Heap × List Slice
unfolding go_append
extend grow h s [] = (h, s ∷ [])
extend grow h s (v ∷ vs) =
    let w = go_append grow h s v in let rest = extend grow w.0 w.1 vs in (rest.0, rest.1 ++ s ∷ [])
