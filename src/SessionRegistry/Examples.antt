-- ===== src/SessionRegistry/Examples.antt =====
-- Two sessions in a registry of two places.
use qwen_harness_bridge.SessionRegistry.Laws.{start_again, one_session_each}
use qwen_harness_bridge.Database.{Key}
use qwen_harness_bridge.SessionRegistry.{
  start_session, Registry, StartValue, create_live_session, missing, supplies, LiveSession,
  get_session, begin_close, owner_session, next, fresh_registry, starts, start_found, use_transport,
  remove,
}
use qwen_harness_bridge.Prelude.{◌≡◌, length, ◌≤◌, [], ok, ◌∷◌, false, true, some, refl, ◌↔◌, find}

abbrev call_of : Key → Key → StartValue
call_of id owner = record {
  platform_session_id = id;
  owner_subject = owner;
  media = 1;
  room_id = 2;
  rtc_user_id = 3;
}

abbrev empty_registry : Registry
empty_registry = record { sessions = []; owner_sessions = [] }

abbrev one_call : Registry
one_call = record {
  sessions = create_live_session (call_of 10 4) ∷ [];
  owner_sessions = record { owner = 4; session_id = 10 } ∷ [];
}

started :
    start_session 2 (call_of 10 4) supplies empty_registry
    ≡ ok (record { session = create_live_session (call_of 10 4); created = true }, one_call)
unfolding start_session start_found get_session find owner_session use_transport
started = refl

one_session_each_example :
    (length one_call.sessions ≤ 2)
    × ((i j : Key) (s t : LiveSession)
        → get_session i one_call ≡ some s
        → get_session j one_call ≡ some t
        → s.owner_id ≡ t.owner_id
        → s ≡ t)
    × ((owner id : Key)
        → (owner_session owner one_call ≡ some (record { owner = owner; session_id = id }))
          ↔ ((s : LiveSession) × (get_session id one_call ≡ some s) × (s.owner_id ≡ owner)))
one_session_each_example =
    one_session_each 2 one_call (next fresh_registry (starts (call_of 10 4) supplies _ started))

start_again_example :
    (start_session 2 (call_of 10 4) missing one_call
      ≡ ok (record { session = create_live_session (call_of 10 4); created = false }, one_call))
    × (start_session 2 (call_of 10 4) missing (begin_close 10 one_call)
        ≡ ok (
          record {
            session = record (create_live_session (call_of 10 4)) { closed = true };
            created = false;
          },
          begin_close 10 one_call,
        ))
    × ((reg' : Registry) × (start_session 2
            (call_of 10 4)
            supplies
            (remove 10 4 (begin_close 10 one_call))
          ≡ ok (record { session = create_live_session (call_of 10 4); created = true }, reg'))
        × (get_session 10 reg' ≡ some (create_live_session (call_of 10 4))))
unfolding get_session find create_live_session
start_again_example =
    start_again 2 (call_of 10 4) missing one_call (create_live_session (call_of 10 4))
      (next fresh_registry (starts (call_of 10 4) supplies _ started)) refl refl refl refl refl
