-- ===== src/Cluster/Overlap/Forgotten.antt =====
-- A value that is acknowledged and lost where two calls of `Put` overlap (server/server.go).
use committer.Prelude.{
  ℕ, zero, suc, ◌≡◌, ◌≢◌, ◌⊎◌, refl, sym, ◌∙◌, subst, String, some, List, map, [], ◌∷◌, ◌++◌, All,
  ◌==◌, false, arith, inl, inr, Bool-cases,
}
use committer.Proto.{Entry, Bytes, ack, answer}
use committer.Cache.{Cache, Msg, new, get-set}
use committer.Cache
use committer.Monitor.{new_monitor}
use committer.Refine.{starting}
use committer.Database.{ok, in_memory, in_memory-DatabaseLaws}
use committer.Server.Handlers.{Node}
use committer.Cluster.{exit}
use committer.Cluster.Overlap.{Flight, done, Move, runs, System, move, overlap, turns}
use committer.Cluster.Overlap.Clean.{Guard}
use committer.Cluster.Overlap.Clean.Turns.{Clean}
use committer.Cluster.Overlap.Clean.Guarded.{Guarded, overlap-Guarded}
use committer.Cluster.Overlap.Lost.{cluster, stores}

-- The first call makes all its proposals, then the second makes all of its own.
abbrev pub both_proposed : List Move
both_proposed = turns 0 4 ++ turns 1 4

-- Nothing is read under the key.
abbrev pub Unread : String → in_memory.State → Type 0
Unread k d = (v : Bytes) → in_memory.get d k ≢ ok v

-- No message with the key is cached, at the height 0 or elsewhere.
abbrev pub Uncached : String → Cache → Type 0
Uncached k c = (i : ℕ) (m : Msg) → Cache.get c i ≡ some m → m.key ≢ k

abbrev Elsewhere : String → Cache → Type 0
Elsewhere k c = (i : ℕ) (m : Msg) → (i == 0) ≡ false → Cache.get c i ≡ some m → m.key ≢ k

set-Elsewhere :
    (k : String) (c : Cache) (x : Entry) → Elsewhere k c → Elsewhere k (Cache.set c 0 x.key x.value)
set-Elsewhere k c x h i m other found = h i m other (rw (get-set, other) at found)

set-Uncached :
    (k : String) (c : Cache) (x : Entry)
    → x.key ≢ k
    → Elsewhere k c
    → Uncached k (Cache.set c 0 x.key x.value)
set-Uncached k c x ne h i m found = elim (Bool-cases (i == 0)) [
  | inl here ↦
      let same : some (record { key = x.key; value = x.value }) ≡ some m =
        rw (get-set, here) at found in
      let msg : record { key = x.key; value = x.value } ≡ m = cc same in
      subst (λ (y : Msg). y.key ≢ k) msg ne
  | inr other ↦ h i m other (rw (get-set, other) at found)
]

new-Elsewhere : (k : String) → Elsewhere k new
unfolding Cache.get new
new-Elsewhere k i m other found = cc found

-- Anything may stand under another key.
abbrev Other : String → String → Bytes → Type 0
Other k j v = j ≢ k

Clean-node :
    (k : String) (n : Node in_memory)
    → Unread k n.db
    → Uncached k n.node_cache
    → Clean in_memory (Other k) n
Clean-node k n unread uncached = record {
  reads = λ j v found same. unread v (subst (λ x. in_memory.get n.db x ≡ ok v) same found);
  cached = uncached;
}

-- A turn of one call leaves the others where they are.
turns-flights :
    (n j i : ℕ) (y : System in_memory)
    → (i == j) ≡ false
    → (overlap in_memory y (turns j n)).flights i ≡ y.flights i
unfolding overlap move
turns-flights zero j i y other = refl
turns-flights (suc n) j i y other =
    turns-flights n j i (move in_memory y (runs j)) other ∙ rw other refl

-- Once both calls have proposed, nobody has cached the first one's entry, and only the second, and
-- calls that have not begun, could propose again.
both_proposed-Guarded :
    (mode : String) (e e' : Entry) (d d₁ d₂ : in_memory.State) (c₁ c₂ : Cache)
    → e'.key ≢ e.key
    → All (Unread e.key) (d ∷ d₁ ∷ d₂ ∷ [])
    → All (Uncached e.key) (c₁ ∷ c₂ ∷ [])
    → Guarded in_memory
        (Other e.key)
        in_memory-DatabaseLaws
        (overlap in_memory (cluster mode e e' d d₁ d₂ c₁ c₂) both_proposed)
unfolding overlap new_monitor starting
both_proposed-Guarded mode e e' d d₁ d₂ c₁ c₂ ne (u, (u₁, (u₂, _))) (n₁, (n₂, _)) =
    let k = e.key in
    let first = set-Elsewhere k new e (new-Elsewhere k) in
    let again = set-Elsewhere k (Cache.set new 0 k e.value) e first in
    let elsewhere : (c : Cache) → Uncached k c → Elsewhere k (Cache.set c 0 k e.value) =
      λ c n. set-Elsewhere k c e (λ i m other. n i m) in
    record {
      near = Clean-node k _ u (set-Uncached k _ e' ne (set-Elsewhere k _ e' again));
      far = (
        Clean-node k _ u₁ (set-Uncached k _ e' ne (elsewhere c₁ n₁)),
        (Clean-node k _ u₂ (set-Uncached k _ e' ne (elsewhere c₂ n₂)), tt),
      );
      guards = guarded;
    }
  where
    guarded :
        (j : ℕ)
        → let y = overlap in_memory (cluster mode e e' d d₁ d₂ c₁ c₂) both_proposed in
          Guard in_memory
            (Other e.key)
            in_memory-DatabaseLaws
            (y.flights j).entry
            (y.flights j).point
    guarded zero = tt
    guarded (suc zero) = tt
    guarded (suc (suc j)) =
        let i = suc (suc j) in
        let y = cluster mode e e' d d₁ d₂ c₁ c₂ in
        let waits : (overlap in_memory y both_proposed).flights i ≡ y.flights i =
          turns-flights 4 1 i (overlap in_memory y (turns 0 4)) (ground arith)
          ∙ turns-flights 4 0 i y (ground arith) in
        subst (λ (x : Flight). Guard in_memory (Other e.key) in_memory-DatabaseLaws x.entry x.point)
          (sym waits) ne

All-Unread :
    (k : String) (fs : List (Node in_memory))
    → All (Clean in_memory (Other k)) fs
    → All (Unread k) (map (λ (n : Node in_memory). n.db) fs)
All-Unread k [] c = tt
All-Unread k (f ∷ fs) (c, cs) = (λ v found. c.reads k v found refl, All-Unread k fs cs)

-- What is left to the first call, up to its end.
abbrev pub ends_first : List Move
ends_first = turns 0 8

Acks : Entry → Entry → (d d₁ d₂ : in_memory.State) → (c₁ c₂ : Cache) → String → Type 0
Acks e e' d d₁ d₂ c₁ c₂ mode =
    ((overlap in_memory (cluster mode e e' d d₁ d₂ c₁ c₂) (both_proposed ++ ends_first)).flights
      0).point
    ≡ done (exit (answer ack 0))

ends_first-Acks :
    (mode : String) (e e' : Entry) (d d₁ d₂ : in_memory.State) (c₁ c₂ : Cache)
    → (mode ≡ "three-phase") ⊎ (mode ≡ "two-phase")
    → Acks e e' d d₁ d₂ c₁ c₂ mode
unfolding Acks overlap new_monitor starting new
ends_first-Acks mode e e' d d₁ d₂ c₁ c₂ (inl same) = subst (Acks e e' d d₁ d₂ c₁ c₂) (sym same) refl
ends_first-Acks mode e e' d d₁ d₂ c₁ c₂ (inr same) = subst (Acks e e' d d₁ d₂ c₁ c₂) (sym same) refl

-- An acknowledged value that is lost for good. For a coordinator with an empty cache and two
-- followers, all at height 0, with hooks that consent and stores in memory, and a network that
-- delivers, in either commit mode, and for two calls of `Put` with different keys, where nothing is
-- stored or cached under the key of the first: if the first makes all its proposals and then the
-- second makes all of its own, then in whatever order their turns, those of further calls with the
-- entry of the second, and the timeouts of the followers go on, no node ever reads anything under the
-- key of the first; and yet the first returns ACK if it goes on to its end before the second does.
pub overlap-Unread :
    (mode : String) (e e' : Entry) (d d₁ d₂ : in_memory.State) (c₁ c₂ : Cache)
    → (mode ≡ "three-phase") ⊎ (mode ≡ "two-phase")
    → e'.key ≢ e.key
    → All (Unread e.key) (d ∷ d₁ ∷ d₂ ∷ [])
    → All (Uncached e.key) (c₁ ∷ c₂ ∷ [])
    → ((ms : List Move)
        → All
            (Unread e.key)
            (stores (overlap in_memory (cluster mode e e' d d₁ d₂ c₁ c₂) (both_proposed ++ ms))))
      × (((overlap in_memory
              (cluster mode e e' d d₁ d₂ c₁ c₂)
              (both_proposed ++ ends_first)).flights
            0).point
          ≡ done (exit (answer ack 0)))
unfolding Acks overlap
overlap-Unread mode e e' d d₁ d₂ c₁ c₂ one ne unread uncached = (
  λ ms.
      let y = overlap in_memory (cluster mode e e' d d₁ d₂ c₁ c₂) both_proposed in
      let kept =
        overlap-Guarded in_memory (Other e.key) in_memory-DatabaseLaws y ms
          (both_proposed-Guarded mode e e' d d₁ d₂ c₁ c₂ ne unread uncached) in
      let z = overlap in_memory y ms in
      (λ v found. kept.near.reads e.key v found refl, All-Unread e.key z.fs kept.far),
  ends_first-Acks mode e e' d d₁ d₂ c₁ c₂ one,
)
