-- ===== src/Repository/Invariant/Writes.antt =====
-- The shared writes keep the invariant.
use qwen_harness_bridge.Repository.Invariant.Logs.{append-IsDense}
use qwen_harness_bridge.Repository.Commands.Effects.{append_event_adds, enqueue_adds, bump}
use qwen_harness_bridge.Database.Clock.{Clock, FreshIds}
use qwen_harness_bridge.Repository.Invariant.{JobIsValid, IsValid, server_sequences, Below}
use qwen_harness_bridge.Repository.{JobEventInput}
use qwen_harness_bridge.Repository.Commands.{
  next_event_sequence, ConnectorCommandType, enqueue_server_command, append_event,
}
use mathlib.Core.Option.{some}
use mathlib.Core.Option
use qwen_harness_bridge.Database.{
  Key, JobRow, Database, CommandPayload, Time, ConnectorMessageRow, ConnectorRow, server,
}
use qwen_harness_bridge.Database.Tables.{
  find_job, update_job, has_id, find_connector, has_connector_id,
}
use qwen_harness_bridge.Prelude.{
  ℕ, ◌≡◌, if◌then◌else◌, ◌==◌, Bool-cases, inl, ==_iff, find-modify_self, arith, inr,
  find-modify_other, some, true, ◌⊎◌, ok, false, subst, List, ◌+◌, find, ◌∷◌, modify, suc,
}

-- Reading a job after an update of the job with the given id.
pub find_job-update_job :
    (k id : Key) (f : JobRow → JobRow) (db : Database)
    → ((j : JobRow) → (f j).id ≡ j.id)
    → find_job k (update_job id f db)
      ≡ (if id == k then Option.map f (find_job id db) else find_job k db)
unfolding find_job update_job
find_job-update_job k id f db keep = elim (Bool-cases (id == k)) [
  | inl same ↦ rw same (
      rw (← (==_iff id k).0 same)
        (find-modify_self (has_id id) f (λ j h. ground (arith, keep j)) db.jobs))
  | inr apart ↦ rw apart (
      find-modify_other (has_id id) (has_id k) f (λ j h. ground arith)
        (λ j h. ground (arith, keep j)) db.jobs)
]

pub update-IsValid :
    (id : Key) (f : JobRow → JobRow) (db : Database) (j : JobRow)
    → ((i : JobRow) → (f i).id ≡ i.id)
    → find_job id db ≡ some j
    → JobIsValid (f j)
    → IsValid db
    → IsValid (update_job id f db)
unfolding update_job find_connector
update-IsValid id f db j keep found valid v = record {
  jobs = λ k i h. update_valid k i h (Bool-cases (id == k));
  events = v.events;
  messages = messages;
}
  where
    open v use {messages}

    update_valid :
        (k : Key) (i : JobRow)
        → find_job k (update_job id f db) ≡ some i
        → ((id == k) ≡ true) ⊎ ((id == k) ≡ false)
        → JobIsValid i
    update_valid k i h (inl same) =
        subst JobIsValid (ground (arith, find_job-update_job k id f db keep)) valid
    update_valid k i h (inr apart) = v.jobs k i (ground (arith, find_job-update_job k id f db keep))

pub append_event-IsValid :
    (id : Key) (input : JobEventInput) (clock : Clock) (ids : FreshIds) (db db' : Database)
    → append_event id (next_event_sequence db id) input clock ids db ≡ ok db'
    → IsValid db
    → IsValid db'
unfolding next_event_sequence find_job find_connector
append_event-IsValid id input clock ids db db' h v =
    let (e, same, next, shape) = append_event_adds id _ input clock ids db db' h in
    rw shape (record {
      jobs = v.jobs;
      events = λ k. append-IsDense k id e db.job_events v.events same next;
      messages = v.messages;
    })

find-bump :
    (k id : Key) (clock : Clock) (n : ℕ) (cs : List ConnectorRow)
    → find (has_connector_id k) (modify (has_connector_id id) (bump clock n) cs) ≡ (
        if id == k
        then Option.map (bump clock n) (find (has_connector_id id) cs)
        else find (has_connector_id k) cs)
find-bump k id clock n cs = elim (Bool-cases (id == k)) [
  | inl same ↦ rw same (
      rw (← (==_iff id k).0 same)
        (find-modify_self (has_connector_id id) (bump clock n) (λ c h. h) cs))
  | inr apart ↦ rw apart (
      find-modify_other (has_connector_id id) (has_connector_id k) (bump clock n)
        (λ c h. ground arith) (λ c h. ground arith) cs)
]

server_sequences-cons :
    (k : Key) (m : ConnectorMessageRow) (ms : List ConnectorMessageRow)
    → m.direction ≡ server
    → server_sequences k (m ∷ ms)
      ≡ (if m.connector_id == k then m.sequence ∷ server_sequences k ms else server_sequences k ms)
unfolding server_sequences
server_sequences-cons k m ms e = ground arith

-- The next sequence of a connector, put in front of its messages.
extend-Below :
    (k : Key) (m : ConnectorMessageRow) (ms : List ConnectorMessageRow) (n : ℕ)
    → m.direction ≡ server
    → m.connector_id ≡ k
    → m.sequence ≡ n + 1
    → Below (suc n) (server_sequences k ms)
    → Below (suc (n + 1)) (server_sequences k (m ∷ ms))
extend-Below k m ms n e same next b = rw (server_sequences-cons k m ms e) (
    rw ((==_iff m.connector_id k).1 same)
      (ground arith, subst (λ i. Below i (server_sequences k ms)) (ground arith) b))

pub bumped-Below :
    (i id : Key) (clock : Clock) (c d : ConnectorRow) (m : ConnectorMessageRow) (db : Database)
    → m.direction ≡ server
    → m.connector_id ≡ id
    → m.sequence ≡ c.last_server_sequence + 1
    → find (has_connector_id id) db.connectors ≡ some c
    → ((j : Key) (e : ConnectorRow)
        → find (has_connector_id j) db.connectors ≡ some e
        → Below (suc e.last_server_sequence) (server_sequences j db.connector_messages))
    → find
        (has_connector_id i)
        (modify (has_connector_id id) (bump clock (c.last_server_sequence + 1)) db.connectors)
      ≡ some d
    → Below (suc d.last_server_sequence) (server_sequences i (m ∷ db.connector_messages))
bumped-Below i id clock c d m db way to next found old now = elim (Bool-cases (id == i)) [
  | inl same ↦
      let eq : id ≡ i = (==_iff id i).0 same in
      let last : d.last_server_sequence ≡ c.last_server_sequence + 1 =
        ground (arith, find-bump i id clock (c.last_server_sequence + 1) db.connectors) in
      rw (last, ← eq)
        (extend-Below id m db.connector_messages c.last_server_sequence way to next
          (old id c found))
  | inr apart ↦ rw (server_sequences-cons i m db.connector_messages way) (
      rw (to, apart)
        (old i d (ground (arith, find-bump i id clock (c.last_server_sequence + 1) db.connectors))))
]

pub enqueue-IsValid :
    (owner connector_id : Key) (type : ConnectorCommandType) (payload : CommandPayload)
    (expires_at : Time) (clock : Clock) (k : ℕ) (ids : FreshIds) (db db' : Database)
    → enqueue_server_command owner connector_id type payload expires_at clock k ids db ≡ ok db'
    → IsValid db
    → IsValid db'
unfolding find_job find_connector
enqueue-IsValid owner connector_id type payload expires_at clock k ids db db' h v =
    let (c, m, found, _, to, way, next, _, _, _, shape) =
      enqueue_adds owner connector_id type payload expires_at clock k ids db db' h in
    rw shape (record {
      jobs = v.jobs;
      events = v.events;
      messages = λ i d. bumped-Below i connector_id clock c d m db way to next found v.messages;
    })
