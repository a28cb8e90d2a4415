-- ===== src/Cluster/Delivery.antt =====
-- A `Put` that nothing disturbs (server/server.go): two willing followers and a network that
-- delivers every call.
use committer.Prelude.{ℕ, suc, none, ◌≡◌, refl, true, false, String, [], ◌∷◌}
use committer.Proto.{Entry, ack, answer}
use committer.Cache.{Cache}
use committer.Database.{in_memory}
use committer.Monitor.{new_monitor}
use committer.Refine.{starting}
use committer.Server.Handlers.{Node}
use committer.Server.Interceptor.{host}
use committer.Cluster.{Session, exit}
use committer.Cluster.Put.{put}

-- A node at height 0 whose hooks consent, with a store in memory and a cache of any contents.
abbrev pub willing : String → in_memory.State → Cache → Node in_memory
willing mode d c = record {
  addr = "localhost:3001";
  config = record {
    role = "follower";
    nodeaddr = "localhost:3001";
    coordinator = "localhost:3000";
    followers = "localhost:3001" ∷ "localhost:3002" ∷ [];
    whitelist = "127.0.0.1" ∷ [];
    commit_type = mode;
    timeout = 1000;
    db_path = "./badger";
    with_trace = false;
  };
  db = d;
  propose_hook = λ _. true;
  commit_hook = λ _. true;
  node_cache = c;
  height = 0;
  cancel_commit_on_height = λ _. none;
  monitor = new_monitor;
  timers = [];
}

abbrev undisturbed : Node in_memory → Session in_memory
undisturbed self = record {
  self = self;
  gs = starting;
  net = [];
  expired = false;
  seen_as = host "127.0.0.1";
}

-- `Put` finishes. For a coordinator with two followers, all at height 0, with hooks that consent
-- and stores in memory, and a network that delivers: one round of the retry loop is enough for
-- `Put` to return ACK, in both commit modes, for every entry and whatever the stores and the
-- caches held before.
put-acks :
    (fuel : ℕ) (e : Entry) (d d₁ d₂ : in_memory.State) (c c₁ c₂ : Cache)
    → ((put in_memory
          (suc fuel)
          e
          (undisturbed (willing "three-phase" d c))
          (willing "three-phase" d₁ c₁ ∷ willing "three-phase" d₂ c₂ ∷ [])).0
        ≡ exit (answer ack 0))
      × ((put in_memory
            (suc fuel)
            e
            (undisturbed (willing "two-phase" d c))
            (willing "two-phase" d₁ c₁ ∷ willing "two-phase" d₂ c₂ ∷ [])).0
          ≡ exit (answer ack 0))
unfolding put new_monitor starting
put-acks fuel e d d₁ d₂ c c₁ c₂ = (refl, refl)
