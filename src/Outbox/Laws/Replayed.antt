-- ===== src/Outbox/Laws/Replayed.antt =====
-- outbox.ts: pendingServerMessages, the rows that it answers.
use mathlib.Core.List.{Perm}
use qwen_harness_bridge.Database.{Direction, server, client, Key, CommandPayload, Time}
use qwen_harness_bridge.Repository.Queries.{order_by}
use qwen_harness_bridge.Repository.Queries.Sorting.{
  order_by-IsOrdered, taken_all, order_by-Perm, IsOrdered-IsSorted,
}
use qwen_harness_bridge.Outbox.Messages.{Supply, replace_server_message, tombstone, is_replaced}
use qwen_harness_bridge.Outbox.{ConnectorIdentity, true, false, List, ok, lock_connector, Bool}
use qwen_harness_bridge.Database.{ConnectorMessageRow, Database}
use qwen_harness_bridge.Outbox.Replay.{
  pending_server_messages, replay_pending, earlier_sequence, replay_rows, is_after_sequence,
  replace_candidates, tombstone_replay_batch, replace_candidate, tombstone_candidates,
}
use qwen_harness_bridge.Prelude.{
  ℕ, ◌≡◌, [], false, true, arith, List, ok, length, ◌≤◌, ◌++◌, ◌⊎◌, select, take-append-drop, drop,
  length-take-le, Chosen, inl, ◌<◌, ◌↔◌, inr, IsSorted, select-Chosen, refl, map, Result-cases,
  Bool, ◌∷◌, bind-eq-ok, modify, suc, ◌∙◌, map-modify,
}

earlier-asym :
    (m n : ConnectorMessageRow) → earlier_sequence n m ≡ true → earlier_sequence m n ≡ false
earlier-asym m n h = ground arith

earlier_weak :
    (l m n : ConnectorMessageRow)
    → earlier_sequence n m ≡ false
    → earlier_sequence m l ≡ false
    → earlier_sequence n l ≡ false
earlier_weak l m n h g = ground arith

replay_pending-rows :
    (identity : ConnectorIdentity) (after : ℕ) (s : Supply) (db db' : Database)
    (rows : List ConnectorMessageRow)
    → replay_pending identity after s db ≡ ok (rows, db')
    → rows ≡ replay_rows identity.connector_id after db'
unfolding replay_pending
replay_pending-rows identity after s db db' rows h = ground arith

-- A message of the control plane to the connector that comes after a sequence.
pub record IsReplayable (connector_id : Key) (after : ℕ) (m : ConnectorMessageRow) : Type 0 where
  pub addressee : m.connector_id ≡ connector_id
  pub outgoing : m.direction ≡ server
  pub later : after < m.sequence

Direction-cases : (d : Direction) → (d ≡ server) ⊎ (d ≡ client)
Direction-cases server = inl refl
Direction-cases client = inr refl

is_after_sequence_iff :
    (connector_id : Key) (after : ℕ) (m : ConnectorMessageRow)
    → (is_after_sequence connector_id after m ≡ true) ↔ IsReplayable connector_id after m
unfolding is_after_sequence
is_after_sequence_iff connector_id after m = elim (Direction-cases m.direction) [
  | inl e ↦ (
    λ h. record { addressee = ground arith; outgoing = e; later = ground arith },
    λ r. ground (arith, r.addressee, r.later),
  )
  | inr e ↦ (λ h. absurd (ground arith), λ r. absurd (ground (arith, r.outgoing)))
]

-- Where a message stands: whose it is, its direction and its sequence.
abbrev pub place : ConnectorMessageRow → Key × Direction × ℕ
place m = (m.connector_id, m.direction, m.sequence)

abbrev pub SamePlaces : Database → Database → Type 0
SamePlaces db db' = map place db'.connector_messages ≡ map place db.connector_messages

replaced-SamePlaces :
    (m : ConnectorMessageRow) (payload : CommandPayload) (offer expired : Bool) (now : Time)
    (s : Supply) (k : ℕ) (db db' : Database)
    → replace_server_message m payload offer expired now s k db ≡ ok db'
    → SamePlaces db db'
unfolding replace_server_message
replaced-SamePlaces m payload offer expired now s k db db' h =
    let step = tombstone payload now (s.ids k).command_message in
    let shape : modify (is_replaced m offer expired now) step db.connector_messages
        ≡ db'.connector_messages =
      ground arith in
    rw (← shape) (
      map-modify place (is_replaced m offer expired now) step (λ x. unfold tombstone in refl)
        db.connector_messages)

candidates-SamePlaces :
    (seen : Database) (ms : List ConnectorMessageRow) (now : Time) (s : Supply) (k : ℕ)
    (db db' : Database)
    → replace_candidates seen ms now s k db ≡ ok db'
    → SamePlaces db db'
unfolding replace_candidates replace_candidate
candidates-SamePlaces seen [] now s k db db' h = let same : db' ≡ db = ground arith in rw same refl
candidates-SamePlaces seen (m ∷ ms) now s k db db' h =
    let (mid, replaced, rest) = bind-eq-ok (replace_candidate seen m now s k db) _ h in
    candidates-SamePlaces seen ms now s (suc k) mid db' rest
    ∙ replaced-SamePlaces m _ _ _ now s k db mid replaced

replay_pending-SamePlaces :
    (identity : ConnectorIdentity) (after : ℕ) (s : Supply) (db db' : Database)
    (rows : List ConnectorMessageRow)
    → replay_pending identity after s db ≡ ok (rows, db')
    → SamePlaces db db'
unfolding replay_pending tombstone_replay_batch
replay_pending-SamePlaces identity after s db db' rows h =
    elim (Result-cases (lock_connector db identity)) [
      | inr (e, failed) ↦ absurd (ground arith)
      | inl (c, locked) ↦
          candidates-SamePlaces db (tombstone_candidates c.id after (s.clock.reading 0) db)
            (s.clock.reading 0) s 0 db db' (ground arith)
    ]

-- The rows that a replay answers are at most a hundred. With those that were cut off they are a
-- permutation of the chosen messages: those of the control plane to the connector whose sequence is
-- greater than the asked one, as the replay leaves them. They come by rising sequences, the rows that
-- are cut off last; nothing is cut off below a hundred. The replay may replace what a message says, but
-- it keeps every message of the table with its connector, its direction and its sequence.
pub pending_in_order :
    (identity : ConnectorIdentity) (after : ℕ) (s : Supply) (db db' : Database)
    (rows : List ConnectorMessageRow)
    → pending_server_messages identity after s db ≡ (ok rows, db')
    → (rest : List ConnectorMessageRow) × (chosen : List ConnectorMessageRow) × (length rows ≤ 100)
      × Chosen (IsReplayable identity.connector_id after) db'.connector_messages chosen
      × Perm (rows ++ rest) chosen
      × IsSorted (λ m n. m.sequence ≤ n.sequence) (rows ++ rest)
      × ((length rows ≡ 100) ⊎ (rest ≡ []))
      × (map place db'.connector_messages ≡ map place db.connector_messages)
unfolding pending_server_messages
pending_in_order identity after s db db' rows h =
    let answers : rows ≡ replay_rows identity.connector_id after db' =
      replay_pending-rows identity after s db db' rows (ground arith) in
    let chosen : List ConnectorMessageRow =
      select (is_after_sequence identity.connector_id after) db'.connector_messages in
    let sorted : List ConnectorMessageRow = order_by earlier_sequence chosen in
    let whole = take-append-drop 100 sorted in
    rw answers (
      unfold replay_rows in
      (
        drop 100 sorted,
        chosen,
        length-take-le 100 sorted,
        select-Chosen (IsReplayable identity.connector_id after)
            (is_after_sequence identity.connector_id after)
            (is_after_sequence_iff identity.connector_id after) db'.connector_messages,
        rw whole (order_by-Perm earlier_sequence chosen),
        rw whole (
            IsOrdered-IsSorted earlier_sequence (λ m n. m.sequence ≤ n.sequence)
              (λ m n e. ground arith) sorted
              (order_by-IsOrdered earlier_sequence earlier-asym earlier_weak chosen)),
        taken_all 100 sorted,
        replay_pending-SamePlaces identity after s db db' rows (ground arith),
      ))
