-- ===== src/Examples/Slices.antt =====
-- The theorems about slices and about the measurements, at concrete inputs.
use committer.Prelude.{ℕ, ◌+◌, ◌≡◌, ◌≤◌, refl, true, List, [], ◌∷◌, ◌++◌, map, arith}
use committer.Tla.{Tla, nil, str}
use committer.Tla.Shared.{Slice, Heap, elements, go_append, extend}
use committer.Tla.Shared.Values.{Fits, extended, extend-extended}
use committer.Tla.Shared.Masks.{check_append, check_append-go_append}
use committer.Server.Timing.{Timing, time_put, overhead, time_put-le}

abbrev twice : ℕ → ℕ
twice n = n + n

-- One array without room.
abbrev blank_heap : Heap
blank_heap = record { next = 1; room = λ a. 0; cell = λ a i. nil }

abbrev empty_slice : Slice
empty_slice = record { array = 0; len = 0 }

abbrev four_actions : List Tla
four_actions = str "a1" ∷ str "a2" ∷ str "a3" ∷ str "a4" ∷ []

empty_slice-Fits : Fits blank_heap empty_slice
empty_slice-Fits = record { known = omega arith; inside = omega arith }

extend-extended_example :
    let w = extend twice blank_heap empty_slice four_actions in
    map (elements w.0) w.1 ≡ extended (elements blank_heap empty_slice) four_actions
extend-extended_example =
    extend-extended twice blank_heap empty_slice four_actions (λ n. omega arith) empty_slice-Fits

-- The third and the fourth slice on the way lie in one array, which has room for six.
abbrev long_heap : Heap
long_heap = (extend twice blank_heap empty_slice four_actions).0

abbrev three : Slice
three = record { array = 2; len = 3 }

abbrev four : Slice
four = record { array = 2; len = 4 }

on_the_way :
    (extend twice blank_heap empty_slice four_actions).1
    ≡ four
      ∷ three
      ∷ record { array = 1; len = 2 }
      ∷ record { array = 1; len = 1 }
      ∷ empty_slice
      ∷ []
unfolding extend
on_the_way = refl

room_left : long_heap.room 2 ≡ 6
unfolding extend
room_left = refl

-- The action `a4` was logged and the check asks for `b`.
check_append-go_append_example :
    (check_append twice long_heap three four (str "b") ≡ true)
    × (elements (go_append twice long_heap three (str "b")).0 four
        ≡ elements long_heap three ++ str "b" ∷ [])
check_append-go_append_example =
    check_append-go_append twice long_heap three four (str "b") (rw room_left (omega arith)) refl
      refl

abbrev idle : Timing
idle = record { normal_start = 0; normal_total = 0; monitor_start = 0; monitor_total = 0 }

time_put-le_example :
    let u = overhead (time_put 1000 ((2000, 4500) ∷ (5000, 6999) ∷ []) 9000 idle) in
    (u.0 ≤ u.1) × (u.1 ≡ 8)
time_put-le_example =
    time_put-le 1000 ((2000, 4500) ∷ (5000, 6999) ∷ []) 9000 idle
      (omega arith, omega arith, (omega arith, omega arith, omega arith)) (omega arith)
      (omega arith)

measured : overhead (time_put 1000 ((2000, 4500) ∷ (5000, 6999) ∷ []) 9000 idle) ≡ (3, 8)
unfolding overhead time_put
measured = refl
