-- ===== src/Client.antt =====
-- The client that loads a cluster (examples/client/client.go, `Put` of peer/peer.go): one `Put` after
-- another, each behind the coordinator's whitelist, until one is not acknowledged. `strconv.Itoa`
-- prints as `%d` does.
pub mod Reads
pub mod Loads
pub mod Gets
use Prim.Native.Char.{code}
use Prim.Native.String.{◌++◌}
use Prim.Native.String
use committer.Prelude.{
  ℕ, zero, suc, ◌+◌, Bool, false, String, Option, none, some, List, [], ◌∷◌, if◌then◌else◌,
}
use committer.Proto.{Bytes, Entry, Error, Reply, Response, unavailable, fails}
use committer.Tla.{ℤ, pos, negsuc}
use committer.Tla.Print.{decimal_ℕ}
use committer.Database.{Database, Result, ok, err}
use committer.Server.Handlers.{Node, is_ack, get, node_info}
use committer.Server.Interceptor.{Peer, white_list_checker}
use committer.Cluster.{Fate, Control, continue, exit, crash, out_of_fuel, client_side}
use committer.Cluster.Put.{put}
use committer.Cluster.History.{Request, session_of}
use committer.Setup.{World, CommitClient, tracer, new_client}

-- `[]byte(s)` of an ASCII text
unfoldable pub bytes : String → Bytes
bytes String.[] = []
bytes (String.◌∷◌ c s) = code c ∷ bytes s

-- What the client sends in its round `i`.
unfoldable pub nth_entry : ℕ → Entry
unfolding bytes decimal_ℕ
nth_entry i = record { key = "key" ++ decimal_ℕ i; value = bytes ("req" ++ decimal_ℕ i) }

-- What happens to the client's call, which has no deadline.
pub data Line : Type 0 where
  carried call_lost answer_lost : Line

-- A call of the client: how the coordinator sees the client, and how the coordinator's own calls go.
pub record Round : Type 0 where
  pub line : Line
  pub client : Peer
  pub net : List Fate
  pub seen_as : Peer

abbrev pub request : Round → Entry → Request
request r e = record { entry = e; net = r.net; expired = false; seen_as = r.seen_as }

-- How the client ends: it prints its time, panics with an error or because it was not
-- acknowledged, or waits for an answer.
pub data End : Type 0 where
  finished not_acknowledged waiting : End
  failed : Error → End

-- What reaches the client of what the coordinator did.
abbrev pub heard : Line → Control → Control
heard answer_lost (exit r) = exit (fails unavailable)
heard line (exit r) = exit (client_side r)
heard line c = c

-- The checks on what `cli.Put` returned; a call without an error has a response. A coordinator
-- whose process has died answers no call.
unfoldable pub judge : Control → End
unfolding is_ack
judge (exit r) = elim r.error [
  | some x ↦ failed x
  | none ↦ if is_ack r.response then finished else not_acknowledged
]
judge (crash p) = failed unavailable
judge continue = waiting
judge out_of_fuel = waiting

-- The rounds of `for i := 0; i < requests; i++`.
abbrev pub rounds_of : ℤ → ℕ
rounds_of (pos n) = n
rounds_of (negsuc n) = 0

module _ (database : Database) where
  -- What the whitelist of a node answers a caller in the place of the handler, if it refuses it.
  unfoldable pub refusal : Peer → Node database → Option Error
  unfolding white_list_checker
  refusal p n =
      (white_list_checker database p n (λ m. (record { response = none; error = none }, m))).0.error

  -- A call that only reads the node `n`, with what it reads.
  unfoldable pub ask : {A : Type 0} → Line → Peer → Node database → Result A → Result A
  unfolding refusal
  ask line p n answer = elim line [
    | Line.carried ↦ elim (refusal p n) [ some refused ↦ err refused | none ↦ answer ]
    | Line.call_lost ↦ err unavailable
    | Line.answer_lost ↦ err unavailable
  ]

  -- `CommitClient.Get`
  unfoldable pub client_get : Line → Peer → Node database → String → Result Bytes
  unfolding ask get
  client_get line p n key = ask line p n (get database n key)

  -- `CommitClient.NodeInfo`
  unfoldable pub client_info : Line → Peer → Node database → Result ℕ
  unfolding ask node_info
  client_info line p n = ask line p n (ok (node_info database n))

  abbrev pub Served : Type 0
  Served = Control × Node database × List (Node database)

  -- The coordinator's `Put` behind its whitelist.
  unfoldable pub guarded_put : ℕ → Entry → Round → Node database → List (Node database) → Served
  unfolding refusal put
  guarded_put fuel e r self fs =
      let w = put database fuel e (session_of database (request r e) self) fs in
      elim (refusal r.client self) [
        | some refused ↦ (exit (fails refused), self, fs)
        | none ↦ (w.0, w.1.self, w.2)
      ]

  -- `CommitClient.Put`
  unfoldable pub client_put : ℕ → Entry → Round → Node database → List (Node database) → Served
  unfolding guarded_put
  client_put fuel e r self fs =
      let w = guarded_put fuel e r self fs in
      elim r.line [
        | Line.call_lost ↦ (exit (fails unavailable), self, fs)
        | Line.carried ↦ (heard carried w.0, w.1, w.2)
        | Line.answer_lost ↦ (heard answer_lost w.0, w.1, w.2)
      ]

  -- The loop from its round `i`, with as many rounds to come.
  unfoldable pub client_loop :
      ℕ
      → (ℕ → Round)
      → (left i : ℕ) → Node database
      → List (Node database)
      → End × Node database × List (Node database)
  unfolding client_put nth_entry judge
  client_loop fuel rounds zero i self fs = (finished, self, fs)
  client_loop fuel rounds (suc left) i self fs =
      let w = client_put fuel (nth_entry i) (rounds i) self fs in
      let rest = client_loop fuel rounds left (i + 1) w.1 w.2 in
      elim (judge w.0) [ finished ↦ rest | e ↦ (e, w.1, w.2) ]

  -- `main` of the client. `requests` is what `strconv.Atoi` made of REQUESTS.
  unfoldable pub client_main :
      World database
      → ℕ
      → (ℕ → Round)
      → ℤ
      → Node database
      → List (Node database)
      → End × Node database × List (Node database)
  unfolding tracer new_client client_loop
  client_main world fuel rounds requests self fs =
      elim (tracer database world "client" "localhost:3000") [
        | err x ↦ (failed x, self, fs)
        | ok t ↦ elim (new_client database world "localhost:3000" (some t)) [
          | err x ↦ (failed x, self, fs)
          | ok cli ↦ client_loop fuel rounds (rounds_of requests) 0 self fs
        ]
      ]
