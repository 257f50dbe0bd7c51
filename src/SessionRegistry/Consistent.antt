-- ===== src/SessionRegistry/Consistent.antt =====
-- The two maps of the registry agree in every state that can be reached.
use qwen_harness_bridge.SessionRegistry.Starts.{start_returns, register_session, get_session-id}
use qwen_harness_bridge.SessionRegistry.Closes.{
  owner_session-remove, get_session-begin_close, closing, get_session-remove, length-select-le,
  closing-keeps, owner_session-begin_close,
}
use qwen_harness_bridge.Database.{Key}
use qwen_harness_bridge.SessionRegistry.{
  StartValue, owner_session, begin_close, get_session, Registry, remove, create_live_session, Key,
  LiveSession, OwnerEntry, has_session_id, Reachable, Step, next, starts, fresh_registry,
  begins_close, is_closed,
}
use qwen_harness_bridge.Prelude.{
  ℕ, ◌≡◌, find, length, ◌≤◌, some, none, arith, ◌<◌, true, Option-cases, inl, inr, length-modify,
  Bool-cases, refl, ◌==◌, ◌∙◌, sym, ==_refl, ==_iff, not, subst,
}

-- The two maps agree, and the sessions are at most as many as there are places.
pub record IsConsistent (max_sessions : ℕ) (reg : Registry) : Type 0 where
  pub bounded : length reg.sessions ≤ max_sessions
  pub owned :
      (id : Key) (s : LiveSession)
      → get_session id reg ≡ some s
      → owner_session s.owner_id reg ≡ some (record { owner = s.owner_id; session_id = s.id })
  pub backed :
      (owner : Key) (e : OwnerEntry)
      → owner_session owner reg ≡ some e
      → (s : LiveSession) × (get_session e.session_id reg ≡ some s) × (s.owner_id ≡ owner)

started-IsConsistent :
    (max_sessions : ℕ) (start : StartValue) (reg : Registry)
    → IsConsistent max_sessions reg
    → get_session start.platform_session_id reg ≡ none
    → owner_session start.owner_subject reg ≡ none
    → length reg.sessions < max_sessions
    → IsConsistent max_sessions (register_session start reg)
unfolding get_session owner_session find create_live_session
started-IsConsistent max_sessions start reg c unknown inactive room = record {
  bounded = omega arith;
  owned = λ id s h. elim (Bool-cases (start.platform_session_id == id)) [
    | inl same ↦ ground (arith, ==_refl start.owner_subject)
    | inr apart ↦ ground (arith, c.owned id s, ==_iff start.owner_subject s.owner_id)
  ];
  backed = λ owner e h. elim (Bool-cases (start.owner_subject == owner)) [
    | inl same ↦
        (create_live_session start, ground (arith, ==_refl start.platform_session_id), ground arith)
    | inr apart ↦
        let (s, there, own) = c.backed owner e (ground arith) in
        (s, ground (arith, ==_iff start.platform_session_id e.session_id), own)
  ];
}

begin_close-IsConsistent :
    (max_sessions : ℕ) (id : Key) (reg : Registry)
    → IsConsistent max_sessions reg
    → IsConsistent max_sessions (begin_close id reg)
begin_close-IsConsistent max_sessions id reg c = record {
  bounded =
      unfold begin_close in
      omega (
        arith,
        c.bounded,
        length-modify (has_session_id id) (λ s. record s { closed = true }) reg.sessions,
      );
  owned = λ k s h. elim (Option-cases (get_session k reg)) [
    | inl e ↦ absurd (ground (arith, get_session-begin_close k id reg))
    | inr (t, e) ↦
        let same : s ≡ closing id t = ground (arith, get_session-begin_close k id reg) in
        rw (same, (closing-keeps id t).0, (closing-keeps id t).1)
          (owner_session-begin_close t.owner_id id reg ∙ c.owned k t e)
  ];
  backed = λ owner e h.
      let (s, there, own) = c.backed owner e (sym (owner_session-begin_close owner id reg) ∙ h) in
      (
        closing id s,
        get_session-begin_close e.session_id id reg ∙ rw there refl,
        (closing-keeps id s).1 ∙ own,
      );
}

remove-IsConsistent :
    (max_sessions : ℕ) (s : LiveSession) (reg : Registry)
    → IsConsistent max_sessions reg
    → get_session s.id reg ≡ some s
    → IsConsistent max_sessions (remove s.id s.owner_id reg)
unfolding remove
remove-IsConsistent max_sessions s reg c there =
    let mine = c.owned s.id s there in
    let owners = λ (k : Key). owner_session-remove k s.id s.owner_id reg _ mine refl in
    let ids = λ (k : Key). get_session-remove k s.id s.owner_id reg in
    record {
      bounded =
          unfold remove in
          omega
            (arith, c.bounded, length-select-le (λ x. not (has_session_id s.id x)) reg.sessions);
      owned = λ k x h. elim (Bool-cases (k == s.id)) [
        | inl same ↦ absurd (ground (arith, ids k))
        | inr apart ↦
            let x_there : get_session k reg ≡ some x = ground (arith, ids k) in
            let x_owned = c.owned k x x_there in
            elim (Bool-cases (x.owner_id == s.owner_id)) [
              | inl twin ↦ absurd (
                  ground (
                    arith,
                    ==_iff x.owner_id s.owner_id,
                    ==_iff k s.id,
                    get_session-id k reg x x_there,
                    subst
                        (λ (o : Key).
                          owner_session o reg
                          ≡ some (record { owner = x.owner_id; session_id = x.id }))
                        ((==_iff x.owner_id s.owner_id).0 twin) x_owned,
                  ))
              | inr other ↦ owners x.owner_id ∙ rw other x_owned
            ]
      ];
      backed = λ owner e h. elim (Bool-cases (owner == s.owner_id)) [
        | inl same ↦ absurd (ground (arith, owners owner))
        | inr apart ↦
            let e_there : owner_session owner reg ≡ some e = ground (arith, owners owner) in
            let (x, x_there, own) = c.backed owner e e_there in
            elim (Bool-cases (e.session_id == s.id)) [
              | inl twin ↦ absurd (
                  ground (
                    arith,
                    ==_iff owner s.owner_id,
                    ==_iff e.session_id s.id,
                    subst (λ (o : Key). get_session o reg ≡ some x)
                        ((==_iff e.session_id s.id).0 twin) x_there,
                  ))
              | inr other ↦ (x, ids e.session_id ∙ rw other x_there, own)
            ]
      ];
    }

Step-IsConsistent :
    (max_sessions : ℕ) (reg reg' : Registry)
    → Step max_sessions reg reg'
    → IsConsistent max_sessions reg
    → IsConsistent max_sessions reg'
Step-IsConsistent max_sessions reg reg' (starts start factory out h) c =
    elim (start_returns max_sessions start factory reg reg' out h) [
      | inl (_, _, _, same) ↦ rw same c
      | inr (unknown, inactive, room, _, shape) ↦
          rw shape (started-IsConsistent max_sessions start reg c unknown inactive room)
    ]
Step-IsConsistent max_sessions reg reg' (begins_close id) c =
    begin_close-IsConsistent max_sessions id reg c
Step-IsConsistent max_sessions reg reg' (is_closed s there shut) c =
    remove-IsConsistent max_sessions s reg c there

pub Reachable-IsConsistent :
    (max_sessions : ℕ) (reg : Registry) → Reachable max_sessions reg → IsConsistent max_sessions reg
unfolding get_session owner_session find
Reachable-IsConsistent max_sessions reg fresh_registry = record {
  bounded = omega arith;
  owned = λ id s h. absurd (ground arith);
  backed = λ owner e h. absurd (ground arith);
}
Reachable-IsConsistent max_sessions reg (next r step) =
    Step-IsConsistent max_sessions _ reg step (Reachable-IsConsistent max_sessions _ r)
