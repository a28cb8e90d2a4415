-- ===== src/Examples/Overlaps.antt =====
-- The theorems about calls of `Put` that overlap, at a cluster in memory.
use committer.Prelude.{
  ℕ, zero, suc, List, All, ◌++◌, ◌≡◌, ◌⊎◌, inl, inr, refl, String, none, [], ◌∷◌, eq_iff,
}
use committer.Proto.{Bytes, Entry, ack, answer}
use committer.Cache.{new, Msg}
use committer.Cache
use committer.Database.{in_memory, in_memory-DatabaseLaws}
use committer.Monitor.{new_monitor}
use committer.Refine.{starting}
use committer.Cluster.{crash, exit}
use committer.Cluster.Delivery.{willing}
use committer.Cluster.Overlap.{Move, System, done, overlap, turns}
use committer.Cluster.Overlap.Clean.{CleanSystem, overlap-CleanSystem}
use committer.Cluster.Overlap.Clean.Turns.{Clean}
use committer.Cluster.Overlap.Lost.{cluster, put_in, stores}
use committer.Cluster.Overlap.Forgotten.{
  both_proposed, ends_first, Unread, Uncached, overlap-Unread,
}
use committer.Cluster.Overlap.Rejected.{Stuck, overlap-Stuck}
use committer.Cluster.Overlap.Mixed.{mixed, mixed_order, mixed-Stuck, overlap-mixed_order}
use committer.Examples.{entry}

abbrev second_entry : Entry
second_entry = record { key = "key2"; value = [] }

abbrev blank_store : in_memory.State
blank_store = λ _. none

abbrev two_calls : System in_memory
two_calls = cluster "three-phase" entry second_entry blank_store blank_store blank_store new new

abbrev Given : String → Bytes → Type 0
Given k v =
    ((k ≡ entry.key) × (v ≡ entry.value)) ⊎ ((k ≡ second_entry.key) × (v ≡ second_entry.value))

blank-Clean : Clean in_memory Given (willing "three-phase" blank_store new)
unfolding Cache.get new
blank-Clean = record { reads = λ k v h. cc h; cached = λ i m h. cc h }

given : (j : ℕ) → Given (two_calls.flights j).entry.key (two_calls.flights j).entry.value
given zero = inl (refl, refl)
given (suc j) = inr (refl, refl)

two_calls-CleanSystem : CleanSystem in_memory Given in_memory-DatabaseLaws two_calls
two_calls-CleanSystem = record {
  near = blank-Clean;
  far = (blank-Clean, (blank-Clean, tt));
  known = given;
}

overlap-CleanSystem_example :
    CleanSystem in_memory Given in_memory-DatabaseLaws (overlap in_memory two_calls both_proposed)
overlap-CleanSystem_example =
    overlap-CleanSystem in_memory Given in_memory-DatabaseLaws two_calls both_proposed
      two_calls-CleanSystem

-- Two calls whose notes have mixed.
abbrev two_mixed : System in_memory
two_mixed = overlap in_memory two_calls mixed_order

overlap-Stuck_example : Stuck in_memory mixed (overlap in_memory two_mixed (turns 0 9))
overlap-Stuck_example =
    overlap-Stuck in_memory mixed two_mixed (turns 0 9)
      (mixed-Stuck "three-phase" entry second_entry blank_store blank_store blank_store new new)

overlap-mixed_order_example :
    Stuck in_memory mixed (overlap in_memory two_calls (mixed_order ++ turns 1 12))
overlap-mixed_order_example =
    overlap-mixed_order "three-phase" entry second_entry blank_store blank_store blank_store new new
      (turns 1 12)

-- The first call goes on, is carried out at every node and panics.
mixed_crash :
    let y = overlap in_memory two_mixed (turns 0 9) in
    ((y.flights 0).point ≡ done (crash mixed))
    × (stores y
        ≡ put_in entry blank_store ∷ put_in entry blank_store ∷ put_in entry blank_store ∷ [])
unfolding overlap new_monitor new starting
mixed_crash = (refl, refl)

nothing_cached : (k : String) → Uncached k new
unfolding Cache.get new
nothing_cached k i m found = cc found

nothing_stored : (k : String) → Unread k blank_store
nothing_stored k v found = cc found

overlap-Unread_example :
    ((ms : List Move)
      → All (Unread "key1") (stores (overlap in_memory two_calls (both_proposed ++ ms))))
    × (((overlap in_memory two_calls (both_proposed ++ ends_first)).flights 0).point
        ≡ done (exit (answer ack 0)))
overlap-Unread_example =
    overlap-Unread "three-phase" entry second_entry blank_store blank_store blank_store new new
      (inl refl) (λ same. cc ((eq_iff "key2" "key1").1 same))
      (nothing_stored "key1", (nothing_stored "key1", (nothing_stored "key1", tt)))
      (nothing_cached "key1", (nothing_cached "key1", tt))
