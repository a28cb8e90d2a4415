-- ===== src/Tla/Shared/Values.antt =====
-- Where slices behave as values: a sequence that is only ever extended at its end
-- (server/TwoPhaseCommitFull.go, server/server.go).
use committer.Prelude.{
  ℕ, zero, suc, ◌≡◌, ◌≢◌, ◌≤◌, ◌<◌, refl, sym, ap, ◌∙◌, subst, List, [], ◌∷◌, ◌++◌, ltb, ◌==◌,
  Bool-cases, inl, inr, true, false, map, arith,
}
use committer.Tla.{Tla}
use committer.Tla.Shared.{
  Slice, Heap, cells, elements, write, with_array, allocate, go_append, extend,
}

-- The slice lies in an array that has been allocated, and in its room.
pub record Fits (h : Heap) (s : Slice) : Type 0 where
  pub known : s.array < h.next
  pub inside : s.len ≤ h.room s.array

cells_congr : (f g : ℕ → Tla) (n : ℕ) → ((i : ℕ) → i < n → f i ≡ g i) → cells f n ≡ cells g n
cells_congr f g zero same = refl
cells_congr f g (suc n) same =
    rw (cells_congr f g n (λ i lt. same i (omega (arith, lt))), same n (omega arith)) refl

cells-write : (f : ℕ → Tla) (n : ℕ) (v : Tla) → cells (write f n v) (suc n) ≡ cells f n ++ v ∷ []
cells-write f n v =
    let before = cells_congr (write f n v) f n (λ i lt. ground (arith, lt)) in
    let last : write f n v n ≡ v = ground arith in rw (before, last) refl

eq_same : (n : ℕ) → (n == n) ≡ true
eq_same n = ground arith

eq_other : (m n : ℕ) → m ≢ n → (m == n) ≡ false
eq_other m n other = ground (arith, other)

pub with_array-cell : (h : Heap) (a : ℕ) (f : ℕ → Tla) → (with_array h a f).cell a ≡ f
with_array-cell h a f = rw (eq_same a) refl

allocate-cell : (h : Heap) (n : ℕ) (f : ℕ → Tla) → (allocate h n f).cell h.next ≡ f
allocate-cell h n f = rw (eq_same h.next) refl

-- The two ways of an append.
pub go_append_room :
    (grow : ℕ → ℕ) (h : Heap) (s : Slice) (v : Tla)
    → ltb s.len (h.room s.array) ≡ true
    → go_append grow h s v
      ≡ (with_array h s.array (write (h.cell s.array) s.len v), record s { len = suc s.len })
unfolding go_append
go_append_room grow h s v fits = rw fits refl

go_append_full :
    (grow : ℕ → ℕ) (h : Heap) (s : Slice) (v : Tla)
    → ltb s.len (h.room s.array) ≡ false
    → go_append grow h s v ≡ (
      allocate h (grow (suc s.len)) (write (h.cell s.array) s.len v),
      record { array = h.next; len = suc s.len },
    )
unfolding go_append
go_append_full grow h s v full = rw full refl

-- The result of an append reads as the old elements and the new one.
pub go_append-elements :
    (grow : ℕ → ℕ) (h : Heap) (s : Slice) (v : Tla)
    → let w = go_append grow h s v in elements w.0 w.1 ≡ elements h s ++ v ∷ []
unfolding elements
go_append-elements grow h s v = elim (Bool-cases (ltb s.len (h.room s.array))) [
  | inl fits ↦ rw (go_append_room grow h s v fits) (
      ap (λ f. cells f (suc s.len)) (with_array-cell h s.array _)
      ∙ cells-write (h.cell s.array) s.len v)
  | inr full ↦ rw (go_append_full grow h s v full) (
      ap (λ f. cells f (suc s.len)) (allocate-cell h (grow (suc s.len)) _)
      ∙ cells-write (h.cell s.array) s.len v)
]

-- The slice `t` ends where `s` ends or before, if the two share an array.
abbrev pub Behind : Slice → Slice → Type 0
Behind s t = t.array ≡ s.array → t.len ≤ s.len

-- An append leaves the slices behind it as they read.
pub go_append-eq_elements :
    (grow : ℕ → ℕ) (h : Heap) (s t : Slice) (v : Tla)
    → Fits h t
    → Behind s t
    → elements (go_append grow h s v).0 t ≡ elements h t
unfolding go_append elements
go_append-eq_elements grow h s t v fit behind = elim (Bool-cases (ltb s.len (h.room s.array))) [
  | inr full ↦
      let known = fit.known in
      let other : t.array ≢ h.next = λ same. omega (arith, same, known) in
      rw full (rw (eq_other t.array h.next other) refl)
  | inl fits ↦ rw fits (elim (Bool-cases (t.array == s.array)) [
    | inr other ↦ rw other refl
    | inl shared ↦
        let at : t.array ≡ s.array = ground (arith, shared) in
        let le = behind at in
        rw shared (
          subst (λ a. cells (write (h.cell s.array) s.len v) t.len ≡ cells (h.cell a) t.len)
            (sym at)
            (cells_congr (write (h.cell s.array) s.len v) (h.cell s.array) t.len
              (λ i lt. ground (arith, lt, le))))
  ])
]

-- What an append leaves of a slice behind it: its place, and that it is behind the result.
pub go_append-Fits :
    (grow : ℕ → ℕ) (h : Heap) (s t : Slice) (v : Tla)
    → Fits h t
    → Behind s t
    → let w = go_append grow h s v in Fits w.0 t × Behind w.1 t
unfolding go_append
go_append-Fits grow h s t v fit behind = elim (Bool-cases (ltb s.len (h.room s.array))) [
  | inl fits ↦ rw fits (
    record { known = fit.known; inside = fit.inside },
    λ same. let le = behind same in omega (arith, le),
  )
  | inr full ↦
      let known = fit.known in
      let other : t.array ≢ h.next = λ same. omega (arith, same, known) in
      rw full (
        record {
          known = omega (arith, known);
          inside = rw (eq_other t.array h.next other) fit.inside;
        },
        λ same. absurd (other same),
      )
]

pub go_append-Fits_self :
    (grow : ℕ → ℕ) (h : Heap) (s : Slice) (v : Tla)
    → ((n : ℕ) → n ≤ grow n)
    → Fits h s
    → let w = go_append grow h s v in Fits w.0 w.1
unfolding go_append
go_append-Fits_self grow h s v grows fit = elim (Bool-cases (ltb s.len (h.room s.array))) [
  | inl fits ↦ rw fits (record { known = fit.known; inside = ground (arith, fits) })
  | inr full ↦
      rw full (record { known = omega arith; inside = rw (eq_same h.next) (grows (suc s.len)) })
]

-- However often a sequence is extended, the slices behind it read as before.
pub extend-eq_elements :
    (grow : ℕ → ℕ) (h : Heap) (s t : Slice) (vs : List Tla)
    → Fits h t
    → Behind s t
    → elements (extend grow h s vs).0 t ≡ elements h t
unfolding extend
extend-eq_elements grow h s t [] fit behind = refl
extend-eq_elements grow h s t (v ∷ vs) fit behind =
    let w = go_append grow h s v in
    let (fit', behind') = go_append-Fits grow h s t v fit behind in
    extend-eq_elements grow w.0 w.1 t vs fit' behind'
    ∙ go_append-eq_elements grow h s t v fit behind

-- The values of a sequence that is extended again and again, the last one first.
abbrev pub extended : List Tla → List Tla → List (List Tla)
extended xs [] = xs ∷ []
extended xs (v ∷ vs) = extended (xs ++ v ∷ []) vs ++ xs ∷ []

map_last :
    (f : Slice → List Tla) (ss : List Slice) (s : Slice)
    → map f (ss ++ s ∷ []) ≡ map f ss ++ f s ∷ []
map_last f [] s = refl
map_last f (x ∷ ss) s = ap (λ ys. f x ∷ ys) (map_last f ss s)

-- Sequences that are only extended behave as values. If the runtime gives a copy the room it needs,
-- and a slice is extended by one element after another, each time from the last result, in arrays
-- that are shared and copied as Go does it, then at the end every slice on the way, the first one
-- included, reads as the elements that it had when it was made.
pub extend-extended :
    (grow : ℕ → ℕ) (h : Heap) (s : Slice) (vs : List Tla)
    → ((n : ℕ) → n ≤ grow n)
    → Fits h s
    → let w = extend grow h s vs in map (elements w.0) w.1 ≡ extended (elements h s) vs
unfolding extend
extend-extended grow h s [] grows fit = refl
extend-extended grow h s (v ∷ vs) grows fit =
    let w = go_append grow h s v in
    let rest = extend grow w.0 w.1 vs in
    let own : elements rest.0 s ≡ elements h s =
      extend-eq_elements grow h s s (v ∷ vs) fit (λ _. omega arith) in
    let later = extend-extended grow w.0 w.1 vs grows (go_append-Fits_self grow h s v grows fit) in
    map_last (elements rest.0) rest.1 s
    ∙ ap (λ ys. ys ++ elements rest.0 s ∷ []) later
    ∙ rw (own, go_append-elements grow h s v) refl
