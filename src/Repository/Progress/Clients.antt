-- ===== src/Repository/Progress/Clients.antt =====
-- The sequences of the messages that the connectors have sent, across a call of the repository.
use qwen_harness_bridge.Repository.Commands.Effects.{enqueue_adds, bump}
use qwen_harness_bridge.Database.Clock.{Clock, FreshIds}
use qwen_harness_bridge.Repository.{JobEventInput}
use qwen_harness_bridge.Repository.Commands.{
  ConnectorCommandType, append_event, enqueue_server_command,
}
use qwen_harness_bridge.Database.{Key, Database, ConnectorRow, CommandPayload, Time, JobRow}
use qwen_harness_bridge.Database.Tables.{find_connector, has_connector_id, update_job}
use qwen_harness_bridge.Prelude.{
  ℕ, ◌≡◌, [], ◌∷◌, find, ◌∙◌, modify, some, Bool, inl, refl, List, ap, sym, ◌⊎◌, ok, arith, inr,
  Bool-cases, ◌==◌, ◌+◌, if◌then◌else◌, find-modify_kept,
}

-- A connector of the second database is in the first, with the same last client sequence.
abbrev pub IsMatched : Database → Database → Type 0
IsMatched db db' =
    (k : Key) (d : ConnectorRow)
    → find_connector k db' ≡ some d
    → (c : ConnectorRow) × (find_connector k db ≡ some c)
      × (c.last_client_sequence ≡ d.last_client_sequence)

IsMatched-trans :
    (db db' db'' : Database) → IsMatched db db' → IsMatched db' db'' → IsMatched db db''
IsMatched-trans db db' db'' p q k e h =
    let (d, there, same) = q k e h in let (c, found, kept) = p k d there in (c, found, kept ∙ same)

-- The connectors are the same ones, with the same last client sequences.
abbrev pub Clients : Database → Database → Type 0
Clients db db' = IsMatched db db' × IsMatched db' db

pub Clients-refl : (db : Database) → Clients db db
Clients-refl db = (λ k d h. (d, h, refl), λ k d h. (d, h, refl))

pub Clients-trans : (db db' db'' : Database) → Clients db db' → Clients db' db'' → Clients db db''
Clients-trans db db' db'' p q =
    (IsMatched-trans db db' db'' p.0 q.0, IsMatched-trans db'' db' db q.1 p.1)

pub same-Clients : (db db' : Database) → db'.connectors ≡ db.connectors → Clients db db'
unfolding find_connector
same-Clients db db' same = (λ k d h. (d, rw (← same) h, refl), λ k d h. (d, rw same h, refl))

pub update-Clients :
    (id : Key) (f : JobRow → JobRow) (db : Database) → Clients db (update_job id f db)
unfolding update_job find_connector
update-Clients id f db = Clients-refl db

pub find-modify_back :
    (k : Key) (c : ConnectorRow) (p : ConnectorRow → Bool) (f : ConnectorRow → ConnectorRow)
    → ((d : ConnectorRow) → (f d).id ≡ d.id)
    → (cs : List ConnectorRow) → find (has_connector_id k) (modify p f cs) ≡ some c
    → (d : ConnectorRow) × (find (has_connector_id k) cs ≡ some d) × ((c ≡ d) ⊎ (c ≡ f d))
unfolding find modify
find-modify_back k c p f keep [] h = absurd (ground arith)
find-modify_back k c p f keep (d ∷ ds) h = elim (Bool-cases (d.id == k)) [
  | inl hit ↦ (d, rw hit refl, ground (arith, keep d))
  | inr miss ↦ rw miss (find-modify_back k c p f keep ds (ground (arith, keep d)))
]

module _ (p : ConnectorRow → Bool) (f : ConnectorRow → ConnectorRow) (db db' : Database)
    (keep : (d : ConnectorRow)
      → ((f d).id ≡ d.id) × ((f d).last_client_sequence ≡ d.last_client_sequence))
    (shape : db'.connectors ≡ modify p f db.connectors) where
  modify-IsMatched : IsMatched db db'
  unfolding find_connector
  modify-IsMatched k c h =
      let (d, found, change) =
        find-modify_back k c p f (λ d. (keep d).0) db.connectors (rw (← shape) h) in
      (
        d,
        found,
        elim change [
          | inl same ↦ ap (λ (x : ConnectorRow). x.last_client_sequence) (sym same)
          | inr moved ↦
              sym (keep d).1 ∙ ap (λ (x : ConnectorRow). x.last_client_sequence) (sym moved)
        ],
      )

  modified-IsMatched : IsMatched db' db
  unfolding find_connector
  modified-IsMatched k c h =
      let read : find (has_connector_id k) (modify p f db.connectors)
          ≡ some (if p c then f c else c) =
        find-modify_kept (has_connector_id k) p f (λ d. ap (λ i. i == k) (keep d).0) db.connectors
        ∙ rw h refl in
      elim (Bool-cases (p c)) [
        | inl hit ↦ (f c, rw shape (read ∙ rw hit refl), (keep c).1)
        | inr miss ↦ (c, rw shape (read ∙ rw miss refl), refl)
      ]

  pub modify-Clients : Clients db db'
  modify-Clients = (modify-IsMatched, modified-IsMatched)

pub append_event-Clients :
    (id : Key) (n : ℕ) (input : JobEventInput) (clock : Clock) (ids : FreshIds) (db db' : Database)
    → append_event id n input clock ids db ≡ ok db'
    → Clients db db'
append_event-Clients id n input clock ids db db' h =
    same-Clients db db' (unfold append_event in ground arith)

pub enqueue-Clients :
    (owner connector_id : Key) (type : ConnectorCommandType) (payload : CommandPayload)
    (expires_at : Time) (clock : Clock) (k : ℕ) (ids : FreshIds) (db db' : Database)
    → enqueue_server_command owner connector_id type payload expires_at clock k ids db ≡ ok db'
    → Clients db db'
enqueue-Clients owner connector_id type payload expires_at clock k ids db db' h =
    let (c, _, _, _, _, _, _, _, _, _, shape) =
      enqueue_adds owner connector_id type payload expires_at clock k ids db db' h in
    modify-Clients (has_connector_id connector_id) (bump clock (c.last_server_sequence + 1)) db db'
      (λ d. (refl, refl)) (ap (λ (x : Database). x.connectors) shape)
