-- ===== src/Outbox/Progress/Writes.antt =====
-- The writes of the connector store, one by one.
use qwen_harness_bridge.Repository.Progress.Clients.{
  append_event-Clients, modify-Clients, find-modify_back, update-Clients,
}
use qwen_harness_bridge.Repository.Progress.{append_event-keeps, update-Related}
use qwen_harness_bridge.Repository.Commands.Effects.{bump}
use qwen_harness_bridge.Repository.Invariant.Writes.{
  bumped-Below, append_event-IsValid, update-IsValid,
}
use qwen_harness_bridge.Outbox.Progress.{
  IsQuiet, Evolve, arith, IsSound, inl, inr, Evolve-refl, IsValid,
}
use qwen_harness_bridge.Repository.Commands.{is_server, append_event, next_event_sequence}
use qwen_harness_bridge.Outbox.Admission.{store_client_message}
use qwen_harness_bridge.Text.{Text}
use qwen_harness_bridge.Repository.{JobEventInput}
use qwen_harness_bridge.Repository.Invariant.{server_sequences, JobIsValid, IsValid}
use qwen_harness_bridge.Database.{
  Key, JobRow, ConnectorMessageRow, Database, ConnectorRow, CommandPayload, Time, ApprovalRow,
}
use qwen_harness_bridge.Database.Tables.{
  find_job, find_connector, has_connector_id, update_job, has_id,
}
use qwen_harness_bridge.Outbox.Messages.{
  enqueue_server_message, append_job_event, server_row, Supply,
}
use qwen_harness_bridge.Prelude.{
  ℕ, ◌≡◌, modify, List, ok, Bool, some, ◌∷◌, ◌+◌, false, arith, refl, [], Option-cases, inl, inr,
  ==_iff, find-holds, subst, sym, ap, ◌∙◌,
}

-- A job that was found by some id is found by its own.
pub found_by_its_id :
    (id : Key) (db : Database) (j : JobRow) → find_job id db ≡ some j → find_job j.id db ≡ some j
unfolding find_job
found_by_its_id id db j h =
    subst (λ (k : Key). find_job k db ≡ some j)
      (sym ((==_iff j.id id).0 (find-holds (has_id id) db.jobs j h))) h

pub server_sequences-modify :
    (k : Key) (p : ConnectorMessageRow → Bool) (f : ConnectorMessageRow → ConnectorMessageRow)
    → ((m : ConnectorMessageRow)
        → ((f m).connector_id ≡ m.connector_id)
          × ((f m).direction ≡ m.direction)
          × ((f m).sequence ≡ m.sequence))
    → (ms : List ConnectorMessageRow) → server_sequences k (modify p f ms) ≡ server_sequences k ms
unfolding server_sequences modify
server_sequences-modify k p f keep [] = refl
server_sequences-modify k p f keep (m ∷ ms) =
    ground (arith, keep m, server_sequences-modify k p f keep ms)

-- Messages that are rewritten in their places.
pub modify_messages-IsQuiet :
    (p : ConnectorMessageRow → Bool) (f : ConnectorMessageRow → ConnectorMessageRow) (db : Database)
    → ((m : ConnectorMessageRow)
        → ((f m).connector_id ≡ m.connector_id)
          × ((f m).direction ≡ m.direction)
          × ((f m).sequence ≡ m.sequence))
    → IsQuiet db (record db { connector_messages = modify p f db.connector_messages })
unfolding find_job find_connector
modify_messages-IsQuiet p f db keep = record {
  valid = λ v. record {
    jobs = v.jobs;
    events = v.events;
    messages =
        λ k c h. rw (server_sequences-modify k p f keep db.connector_messages) (v.messages k c h);
  };
  jobs = λ k. refl;
  clients = (λ k d h. (d, h, refl), λ k d h. (d, h, refl));
}

-- Connectors whose server sequence stays.
pub modify_connectors-IsValid :
    (p : ConnectorRow → Bool) (f : ConnectorRow → ConnectorRow) (db : Database)
    → ((c : ConnectorRow)
        → ((f c).id ≡ c.id) × ((f c).last_server_sequence ≡ c.last_server_sequence))
    → IsValid db
    → IsValid (record db { connectors = modify p f db.connectors })
unfolding find_job find_connector
modify_connectors-IsValid p f db keep v = record {
  jobs = v.jobs;
  events = v.events;
  messages = λ k c h.
      let (d, found, change) = find-modify_back k c p f (λ d. (keep d).0) db.connectors h in
      let same : c.last_server_sequence ≡ d.last_server_sequence = elim change [
        | inl stays ↦ ap (λ (x : ConnectorRow). x.last_server_sequence) stays
        | inr moved ↦ ap (λ (x : ConnectorRow). x.last_server_sequence) moved ∙ (keep d).1
      ] in
      rw same (v.messages k d found);
}

-- So do connectors whose client sequence stays too.
pub modify_connectors-IsQuiet :
    (p : ConnectorRow → Bool) (f : ConnectorRow → ConnectorRow) (db : Database)
    → ((c : ConnectorRow)
        → ((f c).id ≡ c.id) × ((f c).last_server_sequence ≡ c.last_server_sequence))
    → ((c : ConnectorRow) → (f c).last_client_sequence ≡ c.last_client_sequence)
    → IsQuiet db (record db { connectors = modify p f db.connectors })
unfolding find_job find_connector
modify_connectors-IsQuiet p f db keep kept = record {
  valid = modify_connectors-IsValid p f db keep;
  jobs = λ k. refl;
  clients =
      modify-Clients p f db (record db { connectors = modify p f db.connectors })
        (λ c. ((keep c).0, kept c)) refl;
}

pub approvals-IsQuiet :
    (approvals : List ApprovalRow) (db : Database)
    → IsQuiet db (record db { approvals = approvals })
unfolding find_job find_connector
approvals-IsQuiet approvals db = record {
  valid = λ v. record { jobs = v.jobs; events = v.events; messages = v.messages };
  jobs = λ k. refl;
  clients = (λ k d h. (d, h, refl), λ k d h. (d, h, refl));
}

pub store_client_message-IsQuiet :
    (row : ConnectorMessageRow) (db db' : Database)
    → is_server row.direction ≡ false
    → store_client_message row db ≡ ok db'
    → IsQuiet db db'
unfolding find_job find_connector store_client_message
store_client_message-IsQuiet row db db' way h =
    let shape : db' ≡ record db { connector_messages = row ∷ db.connector_messages } =
      ground arith in
    rw shape (record {
      valid = λ v. record {
        jobs = v.jobs;
        events = v.events;
        messages = λ k c g. unfold server_sequences in ground (arith, v.messages k c g);
      };
      jobs = λ k. refl;
      clients = (λ k d h. (d, h, refl), λ k d h. (d, h, refl));
    })

-- What an enqueued message adds.
pub enqueue_message_adds :
    (id : Key) (type : Text) (payload : ℕ → CommandPayload) (expires_at : Time) (correlation : Key)
    (s : Supply) (k : ℕ) (db db' : Database) (m : ConnectorMessageRow)
    → enqueue_server_message id type payload expires_at correlation s k db ≡ ok (m, db')
    → (c : ConnectorRow) × (find_connector id db ≡ some c)
      × (m
          ≡ server_row id
              (c.last_server_sequence + 1)
              type
              (payload (c.last_server_sequence + 1))
              correlation
              expires_at
              s
              k)
      × (db' ≡ record db {
        connectors =
            modify (has_connector_id id) (bump s.clock (c.last_server_sequence + 1)) db.connectors;
        connector_messages = m ∷ db.connector_messages;
      })
unfolding enqueue_server_message
enqueue_message_adds id type payload expires_at correlation s k db db' m h =
    elim (Option-cases (find_connector id db)) [
      | inl missing ↦ absurd (ground arith)
      | inr (c, found) ↦ (c, found, ground arith, ground arith)
    ]

pub enqueue_message-IsQuiet :
    (id : Key) (type : Text) (payload : ℕ → CommandPayload) (expires_at : Time) (correlation : Key)
    (s : Supply) (k : ℕ) (db db' : Database) (m : ConnectorMessageRow)
    → enqueue_server_message id type payload expires_at correlation s k db ≡ ok (m, db')
    → IsQuiet db db'
unfolding find_job find_connector server_row
enqueue_message-IsQuiet id type payload expires_at correlation s k db db' m h =
    let (c, found, row, shape) =
      enqueue_message_adds id type payload expires_at correlation s k db db' m h in
    rw shape (record {
      valid = λ v. record {
        jobs = v.jobs;
        events = v.events;
        messages = λ i d.
            bumped-Below i id s.clock c d m db (rw row refl) (rw row refl) (rw row refl) found
              v.messages;
      };
      jobs = λ i. refl;
      clients =
          modify-Clients (has_connector_id id) (bump s.clock (c.last_server_sequence + 1)) db
            (record db {
              connectors =
                  modify (has_connector_id id) (bump s.clock (c.last_server_sequence + 1))
                    db.connectors;
              connector_messages = m ∷ db.connector_messages;
            })
            (λ d. (refl, refl)) refl;
    })

pub append_job_event-IsQuiet :
    (id : Key) (input : JobEventInput) (s : Supply) (k : ℕ) (db db' : Database)
    → append_job_event id input s k db ≡ ok db'
    → IsQuiet db db'
unfolding append_job_event
append_job_event-IsQuiet id input s k db db' h =
    let appended : append_event id (next_event_sequence db id) input s.clock (s.ids k) db ≡ ok db' =
      ground arith in
    record {
      valid = append_event-IsValid id input s.clock (s.ids k) db db' appended;
      jobs = append_event-keeps id _ input s.clock (s.ids k) db db' appended;
      clients = append_event-Clients id _ input s.clock (s.ids k) db db' appended;
    }

-- The update of a found job.
pub update-IsSound :
    (id : Key) (f : JobRow → JobRow) (db : Database) (j : JobRow)
    → ((i : JobRow) → (f i).id ≡ i.id)
    → find_job id db ≡ some j
    → (JobIsValid j → JobIsValid (f j) × Evolve j (f j))
    → IsSound db (update_job id f db)
update-IsSound id f db j keep found step = record {
  valid = λ v. update-IsValid id f db j keep found (step (v.jobs id j found)).0 v;
  evolves =
      λ v. update-Related Evolve Evolve-refl id f db j keep found (step (v.jobs id j found)).1;
  clients = update-Clients id f db;
}
