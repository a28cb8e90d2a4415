-- ===== src/Monitor/Clauses.antt =====
-- The formulas that the checks of server/TwoPhaseCommitFull.go repeat: the messages, `Send`,
-- `Receive`, `Reply`, `LogAction`, `LogActor` and the lists of unchanged variables.
use committer.Prelude.{Bool, ◌&&◌, String, List, [], ◌∷◌}
use committer.Go.{Go, ok, ◌>>=◌}
use committer.Tla.{Tla, str, seq, rec, set, no_items, item, items, append}
use committer.Tla.Ops.{
  as_seq, as_record, as_string, eq, record_of, to_set, set_in, index_into, except, remove,
}
use committer.Monitor.{State}

abbrev pub empty : Tla
empty = seq no_items

abbrev pub coordinator : Tla
coordinator = str "coordinator"

unfoldable pub message : String → Tla → Tla → Tla
unfolding record_of
message typ source dest =
    rec (record_of (("type", str typ) ∷ ("msource", source) ∷ ("mdest", dest) ∷ []))

-- `set(str("r1"), str("r2"))`, which is `RM`.
unfoldable pub rm : Go Tla
unfolding to_set
rm = do m ← to_set (items (str "r1" ∷ str "r2" ∷ [])); ok (set m)

-- `Append(s.(Seq), v)`
unfoldable pub append_to : Tla → Tla → Go Tla
unfolding as_seq append
append_to s v = do vs ← as_seq s; ok (seq (append vs (item v no_items)))

-- `[box EXCEPT ![msg.msource] = Append(@, msg)]`
unfoldable pub posted : Tla → Tla → Go Tla
unfolding as_record as_string index_into append_to except
posted msg box = do
  source ← index_into msg (str "msource")
  m ← as_record box
  k ← as_string source
  old ← index_into box source
  queue ← append_to old msg
  ok (rec (except m k queue))

-- `[box EXCEPT ![msg.mdest] = Append(@, msg)]`
unfoldable pub delivered_to : Tla → Tla → Go Tla
unfolding as_record as_string index_into append_to except
delivered_to msg box = do
  dest ← index_into msg (str "mdest")
  m ← as_record box
  k ← as_string dest
  old ← index_into box dest
  queue ← append_to old msg
  ok (rec (except m k queue))

-- `[box EXCEPT ![msg.f] = Remove(@, msg)]`, where `f` is `mdest` or `msource`.
unfoldable pub removed : String → Tla → Tla → Go Tla
unfolding as_record as_string as_seq index_into except remove
removed f msg box = do
  party ← index_into msg (str f)
  m ← as_record box
  k ← as_string party
  old ← index_into box party
  vs ← as_seq old
  ok (rec (except m k (seq (remove vs msg))))

-- `msg \in ToSet(box[msg.f])`
unfoldable pub among : String → Tla → Tla → Go Bool
unfolding as_seq index_into to_set set_in
among f msg box = do
  party ← index_into msg (str f)
  old ← index_into box party
  vs ← as_seq old
  m ← to_set vs
  set_in msg m

unfoldable pub sends : Tla → State → State → Go Bool
unfolding posted eq
sends msg prev this = do
  box ← posted msg prev.outbox
  ok (eq this.outbox box && eq this.inflight prev.inflight && eq this.inbox prev.inbox)

-- The part of `Receive` and `Reply` about the inbox.
unfoldable pub consumes : Tla → State → State → Go Bool
unfolding among removed eq
consumes msg prev this = do
  present ← among "mdest" msg prev.inbox
  box ← removed "mdest" msg prev.inbox
  ok (present && eq this.inbox box)

unfoldable pub receives : Tla → State → State → Go Bool
unfolding consumes eq
receives msg prev this = do
  consumed ← consumes msg prev this
  ok (consumed && eq this.outbox prev.outbox && eq this.inflight prev.inflight)

unfoldable pub replies : Tla → Tla → State → State → Go Bool
unfolding consumes posted eq
replies reply msg prev this = do
  consumed ← consumes msg prev this
  box ← posted reply prev.outbox
  ok (consumed && eq this.outbox box && eq this.inflight prev.inflight)

unfoldable pub logs : List Tla → State → State → Go Bool
unfolding append_to eq
logs entry prev this = do log ← append_to prev.actions (seq (items entry)); ok (eq this.actions log)

-- `UNCHANGED(<<tmPrepared, tmCommitted, tmAborted, tmDecision>>)`
unfoldable pub unchanged_tm : State → State → Bool
unfolding eq
unchanged_tm prev this =
    eq this.tm_prepared prev.tm_prepared
    && eq this.tm_committed prev.tm_committed
    && eq this.tm_aborted prev.tm_aborted
    && eq this.tm_decision prev.tm_decision
