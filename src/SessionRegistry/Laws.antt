-- ===== src/SessionRegistry/Laws.antt =====
-- What holds of every registry that can be reached.
use qwen_harness_bridge.SessionRegistry.Closes.{
  get_session-begin_close, get_session-remove, owner_session-remove, length-select-lt,
}
use qwen_harness_bridge.SessionRegistry.Consistent.{Reachable-IsConsistent, IsConsistent}
use qwen_harness_bridge.SessionRegistry.Starts.{
  started_session, get_session-id, answers_known, register_session, starts_new,
}
use qwen_harness_bridge.Database.{Key}
use qwen_harness_bridge.SessionRegistry.{
  StartValue, owner_session, begin_close, get_session, Registry, start_session, Key,
  TransportFactory, LiveSession, StartOutcome, same_identity, Reachable, supplies, remove,
  create_live_session, next, begins_close, has_session_id,
}
use qwen_harness_bridge.Prelude.{
  ℕ, ◌≡◌, length, ◌≤◌, some, arith, ok, true, false, refl, ◌∙◌, sym, ==_iff, subst, ◌↔◌, none,
  ==_refl, ◌<◌, find,
}

-- Whatever is started and closed, in whatever order, with other starts between the beginning of a close
-- and its callback: there are never more sessions than places, no owner has two of them, and the owner
-- map names exactly the session of each owner that has one.
pub one_session_each :
    (max_sessions : ℕ) (reg : Registry)
    → Reachable max_sessions reg
    → (length reg.sessions ≤ max_sessions)
      × ((i j : Key) (s t : LiveSession)
          → get_session i reg ≡ some s
          → get_session j reg ≡ some t
          → s.owner_id ≡ t.owner_id
          → s ≡ t)
      × ((owner id : Key)
          → (owner_session owner reg ≡ some (record { owner = owner; session_id = id }))
            ↔ ((s : LiveSession) × (get_session id reg ≡ some s) × (s.owner_id ≡ owner)))
one_session_each max_sessions reg r =
    let c = Reachable-IsConsistent max_sessions reg r in
    (
      c.bounded,
      λ i j s t h g same.
          let p = c.owned i s h in
          let q = c.owned j t g in
          let id : s.id ≡ t.id = ground (
            arith,
            subst
                (λ (o : Key).
                  owner_session o reg ≡ some (record { owner = s.owner_id; session_id = s.id }))
                same p,
          ) in
          let first : get_session s.id reg ≡ some s =
            subst (λ (k : Key). get_session k reg ≡ some s) (sym (get_session-id i reg s h)) h in
          let second : get_session t.id reg ≡ some t =
            subst (λ (k : Key). get_session k reg ≡ some t) (sym (get_session-id j reg t g)) g in
          ground (arith, subst (λ (o : Key). get_session o reg ≡ some s) id first),
      λ owner id. (
        λ h. c.backed owner _ h,
        λ (s, there, own).
            subst (λ (o : Key). owner_session o reg ≡ some (record { owner = o; session_id = id }))
              own (c.owned id s there ∙ rw (get_session-id id reg s there) refl),
      ),
    )

-- A session that has been removed leaves its place, its id and its owner free.
removed_start :
    (max_sessions : ℕ) (start : StartValue) (reg : Registry) (s : LiveSession)
    → IsConsistent max_sessions reg
    → get_session start.platform_session_id reg ≡ some s
    → s.owner_id ≡ start.owner_subject
    → (reg' : Registry) × (start_session max_sessions start supplies (remove s.id s.owner_id reg)
        ≡ ok (record { session = create_live_session start; created = true }, reg'))
      × (get_session start.platform_session_id reg' ≡ some (create_live_session start))
removed_start max_sessions start reg s c there own =
    let id = get_session-id start.platform_session_id reg s there in
    let gone : get_session start.platform_session_id (remove s.id s.owner_id reg) ≡ none =
      get_session-remove start.platform_session_id s.id s.owner_id reg
      ∙ rw (id, ==_refl start.platform_session_id) refl in
    let free : owner_session start.owner_subject (remove s.id s.owner_id reg) ≡ none =
      owner_session-remove start.owner_subject s.id s.owner_id reg _
        (c.owned start.platform_session_id s there) refl
      ∙ rw (own, ==_refl start.owner_subject) refl in
    let room : length (remove s.id s.owner_id reg).sessions < max_sessions =
      unfold remove get_session in
      omega (
        arith,
        c.bounded,
        length-select-lt (has_session_id s.id) s reg.sessions
            (subst (λ (k : Key). find (has_session_id k) reg.sessions ≡ some s) (sym id) there),
      ) in
    let out : StartOutcome = record { session = create_live_session start; created = true } in
    let started : start_session max_sessions start supplies (remove s.id s.owner_id reg)
        ≡ ok (out, register_session start (remove s.id s.owner_id reg)) =
      starts_new max_sessions start (remove s.id s.owner_id reg) gone free room in
    (
      register_session start (remove s.id s.owner_id reg),
      started,
      (started_session max_sessions start supplies _ _ out started).0,
    )

-- A start under an id that a session of the registry has, of the same owner, media, room and user,
-- answers with that session and changes nothing, in every registry that can be reached. It does so even
-- while the session is being closed: until the close callback has run, it answers with the session that
-- is closed already. After the callback the same start, if the factory supplies a transport, creates a new
-- session, which is then the one under the id.
pub start_again :
    (max_sessions : ℕ) (start : StartValue) (factory : TransportFactory) (reg : Registry)
    (s : LiveSession)
    → Reachable max_sessions reg
    → get_session start.platform_session_id reg ≡ some s
    → s.owner_id ≡ start.owner_subject
    → s.media ≡ start.media
    → s.room_id ≡ start.room_id
    → s.rtc_user_id ≡ start.rtc_user_id
    → (start_session max_sessions start factory reg
        ≡ ok (record { session = s; created = false }, reg))
      × (start_session max_sessions start factory (begin_close start.platform_session_id reg)
          ≡ ok (
            record { session = record s { closed = true }; created = false },
            begin_close start.platform_session_id reg,
          ))
      × ((reg' : Registry) × (start_session max_sessions start supplies
              (remove s.id s.owner_id (begin_close start.platform_session_id reg))
            ≡ ok (record { session = create_live_session start; created = true }, reg'))
          × (get_session start.platform_session_id reg' ≡ some (create_live_session start)))
start_again max_sessions start factory reg s r there owner media room user =
    let id = get_session-id start.platform_session_id reg s there in
    let same : same_identity s start ≡ true =
      unfold same_identity in
      ground (
        arith,
        ==_iff s.owner_id start.owner_subject,
        ==_iff s.media start.media,
        ==_iff s.room_id start.room_id,
        ==_iff s.rtc_user_id start.rtc_user_id,
      ) in
    let closed : get_session start.platform_session_id (begin_close start.platform_session_id reg)
        ≡ some (record s { closed = true }) =
      get_session-begin_close start.platform_session_id start.platform_session_id reg
      ∙ rw there (ground (arith, ==_iff s.id start.platform_session_id)) in
    (
      answers_known max_sessions start factory reg s there same,
      answers_known max_sessions start factory (begin_close start.platform_session_id reg) _ closed
          (unfold same_identity in same),
      removed_start max_sessions start (begin_close start.platform_session_id reg)
          (record s { closed = true })
          (Reachable-IsConsistent max_sessions _ (next r (begins_close start.platform_session_id)))
          closed owner,
    )
