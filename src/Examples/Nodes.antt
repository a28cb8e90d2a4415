-- ===== src/Examples/Nodes.antt =====
-- The theorems about the handlers of one node, and about the monitor's values, at concrete inputs.
use committer.Prelude.{
  ◌≡◌, ◌⊎◌, ◌↔◌, refl, true, false, some, none, List, [], ◌∷◌, str_eq, if◌then◌else◌, u64_succ,
}
use committer.Proto.{ack, answer, three_phase_commit, ProposeRequest, CommitRequest}
use committer.Cache.{Msg}
use committer.Cache
use committer.Server.Node.{is_three_phase}
use committer.Database.{in_memory, in_memory-DatabaseLaws, ok}
use committer.Server.Handlers.{Node, autocommit, commit, get, propose, remove_first}
use committer.Server.Commit.{
  Committed, NotCommitted, commit_outcome, autocommit-eq_self, commit-commit,
}
use committer.Server.Propose.{get-commit-propose}
use committer.Server.Events.{Call, proposes, commits, run}
use committer.Server.Integrity.{Origin, get-run}
use committer.Tla.{Tla, str, seq, item, no_items}
use committer.Tla.Ops.{eq}
use committer.Tla.Equality.{eq-eq-true}
use committer.Examples.{node, entry}

abbrev fresh : Node in_memory
fresh = node "three-phase" true 0

abbrev proposal : ProposeRequest
proposal = record {
  key = entry.key;
  value = entry.value;
  commit_type = three_phase_commit;
  index = 0;
}

abbrev order : CommitRequest
order = record { index = 0; is_rollback = false }

abbrev two_calls : List Call
two_calls = proposes proposal ∷ commits (some []) order ∷ []

abbrev prepared : Node in_memory
prepared = (propose in_memory fresh proposal).1

get_two_calls : get in_memory (run in_memory fresh two_calls) "key1" ≡ ok entry.value
unfolding get run
get_two_calls = refl

get-run_example :
    (get in_memory fresh "key1" ≡ ok entry.value)
    ⊎ Origin in_memory fresh two_calls "key1" entry.value
get-run_example =
    get-run in_memory in_memory-DatabaseLaws fresh two_calls "key1" entry.value get_two_calls

commit_outcome_example :
    Committed in_memory prepared order (commit in_memory (some []) prepared order)
    ⊎ NotCommitted in_memory prepared (commit in_memory (some []) prepared order)
commit_outcome_example = commit_outcome in_memory (some []) prepared order

abbrev stored_once : in_memory.State
stored_once = λ j. if str_eq j "key1" then some entry.value else none

proposal_acked : (propose in_memory fresh proposal).0 ≡ answer ack 0
unfolding propose
proposal_acked = refl

get-commit-propose_example :
    let t = (commit in_memory (some []) (propose in_memory fresh proposal).1 order).1 in
    (get in_memory t "key1" ≡ ok entry.value) × (t.height ≡ u64_succ 0)
get-commit-propose_example =
    get-commit-propose in_memory in_memory-DatabaseLaws fresh proposal order stored_once
      proposal_acked refl refl refl

fresh_three_phase : is_three_phase fresh.config ≡ true
unfolding is_three_phase
fresh_three_phase = refl

autocommit-eq_self_example :
    autocommit in_memory 0 fresh ≡ record fresh { timers = remove_first in_memory 0 [] }
autocommit-eq_self_example = autocommit-eq_self in_memory 0 fresh fresh_three_phase

abbrev written_message : Msg
written_message = record { key = entry.key; value = entry.value }

abbrev stored_twice : in_memory.State
stored_twice = λ j. if str_eq j "key1" then some entry.value else stored_once j

abbrev waiting : Node in_memory
waiting = record fresh { node_cache = record { store = λ i. some written_message } }

found : Cache.get waiting.node_cache 0 ≡ some written_message
unfolding Cache.get
found = refl

commit-commit_example :
    let again = commit in_memory (some []) (commit in_memory (some []) waiting order).1 order in
    (again.0 ≡ answer ack 0)
    × (again.1.db ≡ stored_twice)
    × (again.1.height ≡ u64_succ (u64_succ 0))
commit-commit_example =
    commit-commit in_memory waiting order written_message stored_once stored_twice refl found refl
      refl

abbrev log_entry : Tla
log_entry = seq (item (str "CSendPrepare") (item (str "r1") no_items))

eq-eq-true_example : (eq log_entry (str "r1") ≡ true) ↔ (log_entry ≡ str "r1")
eq-eq-true_example = eq-eq-true log_entry (str "r1")
