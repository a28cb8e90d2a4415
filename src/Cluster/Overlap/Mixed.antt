-- ===== src/Cluster/Overlap/Mixed.antt =====
-- Two calls of `Put` that mix their notes to the monitor (server/server.go).
use committer.Prelude.{ℕ, zero, suc, ◌≡◌, ◌≢◌, refl, String, List, ◌++◌, ◌==◌, false, arith}
use committer.Go.{Panic, violated}
use committer.Proto.{Entry, ack, answer}
use committer.Cache.{Cache, new}
use committer.Monitor.{new_monitor}
use committer.Monitor.Trace.{check_trace}
use committer.Refine.{starting}
use committer.Database.{in_memory}
use committer.Cluster.{Control, exit}
use committer.Cluster.Overlap.{called, proposing, done, Move, overlap, turns}
use committer.Cluster.Overlap.Lost.{cluster}
use committer.Cluster.Overlap.Rejected.{Stuck, overlap-Stuck}

-- The first call has sent one proposal, then the second begins, then the first sends the next one.
abbrev pub mixed_order : List Move
mixed_order = turns 0 2 ++ (turns 1 1 ++ turns 0 1)

-- What the check of the mixed trace says.
abbrev pub mixed : Panic
mixed = violated "CSendPrepare: UNCHANGED(<<tmPrepared, tmCommitted, tmAborted, tmDecision>>)"

proposing-ne : (i : ℕ) (c : Control) → proposing i ≢ done c
proposing-ne i c same = cc same

called-ne : (c : Control) → called ≢ done c
called-ne c same = cc same

pub mixed-Stuck :
    (mode : String) (e e' : Entry) (d d₁ d₂ : in_memory.State) (c₁ c₂ : Cache)
    → Stuck in_memory mixed (overlap in_memory (cluster mode e e' d d₁ d₂ c₁ c₂) mixed_order)
unfolding overlap new_monitor starting new check_trace
mixed-Stuck mode e e' d d₁ d₂ c₁ c₂ = record { rejects = refl; unacked = under_way }
  where
    under_way :
        (j : ℕ)
        → ((overlap in_memory (cluster mode e e' d d₁ d₂ c₁ c₂) mixed_order).flights j).point
          ≢ done (exit (answer ack 0))
    under_way zero = proposing-ne 2 (exit (answer ack 0))
    under_way (suc zero) = proposing-ne 0 (exit (answer ack 0))
    under_way (suc (suc j)) =
        let first : (suc (suc j) == 0) ≡ false = ground arith in
        let second : (suc (suc j) == 1) ≡ false = ground arith in
        rw (first, second) (called-ne (exit (answer ack 0)))

-- Two calls that mix their notes stay unacknowledged. For a coordinator with an empty cache and two
-- followers, all at height 0, with hooks that consent and stores in memory, and a network that
-- delivers, in every commit mode, and for any two entries: if the first call makes its first
-- proposal, the second call begins and does nothing else, and the first call makes its second
-- proposal, then however their turns, those of further calls with the entry of the second, and the
-- timeouts of the followers go on from there, no call is ever acknowledged, and the check of the
-- trace panics.
pub overlap-mixed_order :
    (mode : String) (e e' : Entry) (d d₁ d₂ : in_memory.State) (c₁ c₂ : Cache) (ms : List Move)
    → Stuck in_memory mixed
        (overlap in_memory (cluster mode e e' d d₁ d₂ c₁ c₂) (mixed_order ++ ms))
unfolding overlap
overlap-mixed_order mode e e' d d₁ d₂ c₁ c₂ ms =
    overlap-Stuck in_memory mixed (overlap in_memory (cluster mode e e' d d₁ d₂ c₁ c₂) mixed_order)
      ms (mixed-Stuck mode e e' d d₁ d₂ c₁ c₂)
