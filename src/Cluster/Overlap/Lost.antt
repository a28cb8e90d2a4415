-- ===== src/Cluster/Overlap/Lost.antt =====
-- Two calls of `Put` that overlap lose a value (server/server.go).
use mathlib.Core.Path.{ap₂}
use committer.Prelude.{
  ℕ, zero, suc, ◌≡◌, ◌≢◌, refl, String, some, List, [], ◌∷◌, ◌++◌, if◌then◌else◌, str_eq, map,
}
use committer.Proto.{Entry, ack, answer, fails, not_in_cache}
use committer.Cache.{Cache, new}
use committer.Monitor.{new_monitor}
use committer.Refine.{starting}
use committer.Database.{in_memory, in_memory-DatabaseLaws}
use committer.Server.Handlers.{Node}
use committer.Server.Interceptor.{host}
use committer.Cluster.{exit}
use committer.Cluster.Delivery.{willing}
use committer.Cluster.Overlap.{Flight, done, Move, System, overlap, flight, turns}

-- The proposals of two followers, and the rest of a `Put` with them.
abbrev lost_order : List Move
lost_order = turns 0 4 ++ (turns 1 4 ++ (turns 0 8 ++ turns 1 4))

abbrev pub pair_of_puts : Entry → Entry → ℕ → Flight
pair_of_puts e e' zero = flight e (host "127.0.0.1") []
pair_of_puts e e' (suc j) = flight e' (host "127.0.0.1") []

abbrev pub cluster :
    String → Entry → Entry → (d d₁ d₂ : in_memory.State) → (c₁ c₂ : Cache) → System in_memory
cluster mode e e' d d₁ d₂ c₁ c₂ = record {
  self = willing mode d new;
  fs = willing mode d₁ c₁ ∷ willing mode d₂ c₂ ∷ [];
  flights = pair_of_puts e e';
}

-- A store after a write.
abbrev pub put_in : Entry → in_memory.State → in_memory.State
put_in e d k = if str_eq k e.key then some e.value else d k

abbrev pub stores : System in_memory → List in_memory.State
stores y = y.self.db ∷ map (λ (n : Node in_memory). n.db) y.fs

-- The first call is acknowledged and the second returns an error; but every store has the entry of
-- the second, and reads under the key of the first what it read before.
abbrev Loses : Entry → Entry → List in_memory.State → System in_memory → Type 0
Loses e e' before y =
    ((y.flights 0).point ≡ done (exit (answer ack 0)))
    × ((y.flights 1).point ≡ done (exit (fails not_in_cache)))
    × (stores y ≡ map (put_in e') before)
    × (map (λ d. in_memory.get d e.key) (stores y) ≡ map (λ d. in_memory.get d e.key) before)

reads_before :
    (e e' : Entry) (ds : List in_memory.State)
    → e.key ≢ e'.key
    → map (λ d. in_memory.get d e.key) (map (put_in e') ds) ≡ map (λ d. in_memory.get d e.key) ds
reads_before e e' [] other = refl
reads_before e e' (d ∷ ds) other =
    let same : in_memory.get (put_in e' d) e.key ≡ in_memory.get d e.key =
      in_memory-DatabaseLaws.get-put_ne d (put_in e' d) e'.key e.key e'.value refl other in
    ap₂ (λ x xs. x ∷ xs) same (reads_before e e' ds other)

-- One schedule that loses an acknowledged value. For a coordinator with an empty cache and two
-- followers, all at height 0, with hooks that consent and stores in memory, and a network that
-- delivers, in both commit modes, and for two calls of `Put` with different keys: if the first call
-- makes its proposals, then the second makes its own, then the first goes on to its end, and then the
-- second goes on, the first returns ACK and the second an error, while every node has stored the
-- entry of the second, and reads under the key of the first what it read before.
overlap-Loses :
    (e e' : Entry) (d d₁ d₂ : in_memory.State) (c₁ c₂ : Cache)
    → e.key ≢ e'.key
    → Loses e e'
        (d ∷ d₁ ∷ d₂ ∷ [])
        (overlap in_memory (cluster "three-phase" e e' d d₁ d₂ c₁ c₂) lost_order)
      × Loses e e'
          (d ∷ d₁ ∷ d₂ ∷ [])
          (overlap in_memory (cluster "two-phase" e e' d d₁ d₂ c₁ c₂) lost_order)
unfolding overlap new_monitor starting new
overlap-Loses e e' d d₁ d₂ c₁ c₂ other =
    let same = reads_before e e' (d ∷ d₁ ∷ d₂ ∷ []) other in
    ((refl, refl, refl, same), (refl, refl, refl, same))
