-- ===== src/Server/Timing.antt =====
-- The measurements of server/timing.go. A time is a reading of the process's monotonic clock in
-- nanoseconds, so that it never goes back; a total is an int64 of microseconds, each measurement
-- rounded down.
use committer.Prelude.{ℕ, ◌+◌, ◌-◌, ◌/◌, ◌%◌, ◌^◌, ◌≡◌, ◌≤◌, ◌<◌, refl, List, [], ◌∷◌, arith}

pub record Timing : Type 0 where
  pub normal_start : ℕ
  pub normal_total : ℕ
  pub monitor_start : ℕ
  pub monitor_total : ℕ

unfoldable pub start_normal : ℕ → Timing → Timing
start_normal now t = record t { normal_start = now }

unfoldable pub end_normal : ℕ → Timing → Timing
end_normal now t = record t {
  normal_total = (t.normal_total + (now - t.normal_start) / 1000) % 2 ^ 64;
}

unfoldable pub start_monitor : ℕ → Timing → Timing
start_monitor now t = record t { monitor_start = now }

unfoldable pub end_monitor : ℕ → Timing → Timing
end_monitor now t = record t {
  monitor_total = (t.monitor_total + (now - t.monitor_start) / 1000) % 2 ^ 64;
}

-- The two numbers that `PrintOverhead` prints with their quotient.
unfoldable pub overhead : Timing → ℕ × ℕ
overhead t = (t.monitor_total, t.normal_total)

-- The notes of a `Put`, each from a time to a time.
unfoldable pub time_notes : List (ℕ × ℕ) → Timing → Timing
unfolding start_monitor end_monitor
time_notes [] t = t
time_notes ((a, b) ∷ notes) t = time_notes notes (end_monitor b (start_monitor a t))

-- What a `Put` that returns ACK measures, from its start to its end.
unfoldable pub time_put : ℕ → List (ℕ × ℕ) → ℕ → Timing → Timing
unfolding start_normal time_notes end_normal
time_put start notes end t = end_normal end (time_notes notes (start_normal start t))

-- The notes lie one after another between two times.
abbrev pub InOrder : ℕ → List (ℕ × ℕ) → ℕ → Type 0
InOrder start [] end = start ≤ end
InOrder start ((a, b) ∷ notes) end = (start ≤ a) × (a ≤ b) × InOrder b notes end

InOrder-le : (start : ℕ) (notes : List (ℕ × ℕ)) (end : ℕ) → InOrder start notes end → start ≤ end
InOrder-le start [] end le = le
InOrder-le start ((a, b) ∷ notes) end (le, le', rest) =
    let later = InOrder-le b notes end rest in omega (arith, le, le', later)

time_notes_lem :
    (start : ℕ) (notes : List (ℕ × ℕ)) (end : ℕ) (t : Timing)
    → InOrder start notes end
    → t.monitor_total + (end - start) / 1000 < 2 ^ 64
    → let u = time_notes notes t in
      (u.monitor_total ≤ t.monitor_total + (end - start) / 1000)
      × (u.normal_total ≡ t.normal_total)
      × (u.normal_start ≡ t.normal_start)
unfolding time_notes
time_notes_lem start [] end t le small = (omega arith, refl, refl)
time_notes_lem start ((a, b) ∷ notes) end t (le, le', rest) small =
    let later = InOrder-le b notes end rest in
    let u = end_monitor b (start_monitor a t) in
    let noted : u.monitor_total ≡ t.monitor_total + (b - a) / 1000 =
      omega (arith, le, le', later, small) in
    let (few, total, begun) =
      time_notes_lem b notes end u rest (omega (arith, noted, le, le', later, small)) in
    (omega (arith, few, noted, le, le', later), total, begun)

-- The overhead is a share. If the monitor's total is not above the whole, then after a `Put` that
-- returns ACK, whose notes lie one after another between its start and its end, it is not above it
-- either, as long as the totals stay below 2^63; and the whole has grown by the time of the
-- `Put` in whole microseconds.
pub time_put-le :
    (start : ℕ) (notes : List (ℕ × ℕ)) (end : ℕ) (t : Timing)
    → InOrder start notes end
    → t.monitor_total ≤ t.normal_total
    → t.normal_total + (end - start) / 1000 < 2 ^ 63
    → let u = overhead (time_put start notes end t) in
      (u.0 ≤ u.1) × (u.1 ≡ t.normal_total + (end - start) / 1000)
unfolding overhead time_put
time_put-le start notes end t order share small =
    let t' = start_normal start t in
    let (few, total, begun) =
      time_notes_lem start notes end t' order (omega (arith, share, small)) in
    let u = time_notes notes t' in
    let whole : (u.normal_total + (end - u.normal_start) / 1000) % 2 ^ 64
        ≡ t.normal_total + (end - start) / 1000 =
      rw (total, begun) (omega (arith, small)) in
    (omega (arith, few, whole, share), whole)
