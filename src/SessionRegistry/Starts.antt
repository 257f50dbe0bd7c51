-- ===== src/SessionRegistry/Starts.antt =====
-- What a start that returns has done.
use qwen_harness_bridge.Database.{Key}
use qwen_harness_bridge.SessionRegistry.{
  StartValue, owner_session, get_session, start_found, Registry, start_session, create_live_session,
  Key, TransportFactory, use_transport, LiveSession, StartOutcome, same_identity, has_session_id,
  missing, throws, supplies,
}
use qwen_harness_bridge.Prelude.{
  ℕ, ◌≡◌, find, length, some, none, ◌∷◌, arith, ok, ◌<◌, find-holds, true, false, Option-cases, ◌⊎◌,
  inl, Option, inr, refl, ==_refl,
}

pub get_session-id :
    (id : Key) (reg : Registry) (s : LiveSession) → get_session id reg ≡ some s → s.id ≡ id
unfolding get_session
get_session-id id reg s h = ground (arith, find-holds (has_session_id id) reg.sessions s h)

-- A session and its owner's entry, put before the others.
abbrev pub register_session : StartValue → Registry → Registry
register_session start reg = record {
  sessions = create_live_session start ∷ reg.sessions;
  owner_sessions =
      record { owner = start.owner_subject; session_id = start.platform_session_id }
      ∷ reg.owner_sessions;
}

returned_new :
    (max_sessions : ℕ) (start : StartValue) (factory : TransportFactory) (reg reg' : Registry)
    (out : StartOutcome)
    → start_found max_sessions start factory none reg ≡ ok (out, reg')
    → (owner_session start.owner_subject reg ≡ none)
      × (length reg.sessions < max_sessions)
      × (out ≡ record { session = create_live_session start; created = true })
      × (reg' ≡ register_session start reg)
unfolding start_found use_transport
returned_new max_sessions start missing reg reg' out h = absurd (ground arith)
returned_new max_sessions start throws reg reg' out h = absurd (ground arith)
returned_new max_sessions start supplies reg reg' out h =
    elim (Option-cases (owner_session start.owner_subject reg)) [
      | inl e ↦ ground arith
      | inr (x, e) ↦ absurd (ground arith)
    ]

-- What a start that returned has done.
pub start_returns :
    (max_sessions : ℕ) (start : StartValue) (factory : TransportFactory) (reg reg' : Registry)
    (out : StartOutcome)
    → start_session max_sessions start factory reg ≡ ok (out, reg')
    → ((get_session start.platform_session_id reg ≡ some out.session)
        × (same_identity out.session start ≡ true)
        × (out.created ≡ false)
        × (reg' ≡ reg))
      ⊎ ((get_session start.platform_session_id reg ≡ none)
          × (owner_session start.owner_subject reg ≡ none)
          × (length reg.sessions < max_sessions)
          × (out ≡ record { session = create_live_session start; created = true })
          × (reg' ≡ register_session start reg))
unfolding start_session
start_returns max_sessions start factory reg reg' out h =
    by_found (get_session start.platform_session_id reg) h
  where
    by_found :
        (o : Option LiveSession)
        → start_found max_sessions start factory o reg ≡ ok (out, reg')
        → ((o ≡ some out.session)
            × (same_identity out.session start ≡ true)
            × (out.created ≡ false)
            × (reg' ≡ reg))
          ⊎ ((o ≡ none)
              × (owner_session start.owner_subject reg ≡ none)
              × (length reg.sessions < max_sessions)
              × (out ≡ record { session = create_live_session start; created = true })
              × (reg' ≡ register_session start reg))
    by_found (some existing) g = inl (unfold start_found in ground arith)
    by_found none g =
        let (free, room, answer, shape) = returned_new max_sessions start factory reg reg' out g in
        inr (refl, free, room, answer, shape)

same_identity-created :
    (start : StartValue) → same_identity (create_live_session start) start ≡ true
unfolding same_identity create_live_session
same_identity-created start = ground (
  arith,
  ==_refl start.owner_subject,
  ==_refl start.media,
  ==_refl start.room_id,
  ==_refl start.rtc_user_id,
)

pub started_session :
    (max_sessions : ℕ) (start : StartValue) (factory : TransportFactory) (reg reg' : Registry)
    (out : StartOutcome)
    → start_session max_sessions start factory reg ≡ ok (out, reg')
    → (get_session start.platform_session_id reg' ≡ some out.session)
      × (same_identity out.session start ≡ true)
started_session max_sessions start factory reg reg' out h =
    elim (start_returns max_sessions start factory reg reg' out h) [
      | inl (there, same, _, kept) ↦ (rw kept there, same)
      | inr (_, _, _, answer, shape) ↦
          rw (answer, shape)
            (
              unfold get_session find create_live_session in
                  ground (arith, ==_refl start.platform_session_id),
              same_identity-created start,
            )
    ]

pub answers_known :
    (max_sessions : ℕ) (start : StartValue) (factory : TransportFactory) (reg : Registry)
    (s : LiveSession)
    → get_session start.platform_session_id reg ≡ some s
    → same_identity s start ≡ true
    → start_session max_sessions start factory reg
      ≡ ok (record { session = s; created = false }, reg)
unfolding start_session start_found
answers_known max_sessions start factory reg s there same = rw (there, same) refl

-- A start under a free id, of a free owner, where there is room.
pub starts_new :
    (max_sessions : ℕ) (start : StartValue) (reg : Registry)
    → get_session start.platform_session_id reg ≡ none
    → owner_session start.owner_subject reg ≡ none
    → length reg.sessions < max_sessions
    → start_session max_sessions start supplies reg
      ≡ ok (
        record { session = create_live_session start; created = true },
        register_session start reg,
      )
unfolding start_session start_found use_transport
starts_new max_sessions start reg gone free room = rw (gone, free) (ground arith)
