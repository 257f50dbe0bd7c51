-- ===== src/SessionRegistry.antt =====
-- apps/control-plane/src/rtc/session/session-registry.ts, with the part of rtc-session.ts that it
-- relies on: a session is closed once, and its close callback runs when its resources are disposed of,
-- which other calls may precede. Identifiers are only compared.
pub mod Starts
pub mod Closes
pub mod Consistent
pub mod Laws
mod Examples
use qwen_harness_bridge.Database.{Key}
use qwen_harness_bridge.Prelude.{
  ℕ, ◌≡◌, false, List, ok, Result, Bool, [], Option, find, some, modify, select, err, ◌==◌, ◌>>◌,
  true, none, not, ◌&&◌, guard, if◌then◌else◌, is_some, ltb, length, ◌∷◌,
}

pub record StartValue : Type 0 where
  pub platform_session_id : Key
  pub owner_subject : Key
  pub media : Key
  pub room_id : Key
  pub rtc_user_id : Key

pub record LiveSession : Type 0 where
  pub id : Key
  pub owner_id : Key
  pub media : Key
  pub room_id : Key
  pub rtc_user_id : Key
  pub closed : Bool

pub record OwnerEntry : Type 0 where
  pub owner : Key
  pub session_id : Key

-- The maps `sessions` and `ownerSessions`.
pub record Registry : Type 0 where
  pub sessions : List LiveSession
  pub owner_sessions : List OwnerEntry

-- What the transport factory does: there is none, it throws, or it supplies a transport.
pub data TransportFactory : Type 0 where
  missing throws supplies : TransportFactory

pub data StartError : Type 0 where
  session_id_conflict owner_already_active registry_full : StartError
  transport_required transport_failed : StartError

abbrev pub has_session_id : Key → LiveSession → Bool
has_session_id id s = s.id == id

abbrev pub has_owner : Key → OwnerEntry → Bool
has_owner owner e = e.owner == owner

unfoldable pub get_session : Key → Registry → Option LiveSession
get_session id reg = find (has_session_id id) reg.sessions

unfoldable pub owner_session : Key → Registry → Option OwnerEntry
owner_session owner reg = find (has_owner owner) reg.owner_sessions

unfoldable pub same_identity : LiveSession → StartValue → Bool
same_identity s start =
    (s.owner_id == start.owner_subject)
    && (s.media == start.media)
    && (s.room_id == start.room_id)
    && (s.rtc_user_id == start.rtc_user_id)

unfoldable pub create_live_session : StartValue → LiveSession
create_live_session start = record {
  id = start.platform_session_id;
  owner_id = start.owner_subject;
  media = start.media;
  room_id = start.room_id;
  rtc_user_id = start.rtc_user_id;
  closed = false;
}

unfoldable pub use_transport : TransportFactory → Result StartError (Unit {0})
use_transport missing = err transport_required
use_transport throws = err transport_failed
use_transport supplies = ok tt

pub record StartOutcome : Type 0 where
  pub session : LiveSession
  pub created : Bool

unfoldable pub start_found :
    ℕ
    → StartValue
    → TransportFactory
    → Option LiveSession
    → Registry
    → Result StartError (StartOutcome × Registry)
start_found max_sessions start factory (some existing) reg = do
  guard (same_identity existing start) session_id_conflict
  ok (record { session = existing; created = false }, reg)
start_found max_sessions start factory none reg = do
  guard (not (is_some (owner_session start.owner_subject reg))) owner_already_active
  guard (ltb (length reg.sessions) max_sessions) registry_full
  use_transport factory
  let session = create_live_session start
  ok (
    record { session = session; created = true },
    record {
      sessions = session ∷ reg.sessions;
      owner_sessions =
          record { owner = start.owner_subject; session_id = start.platform_session_id }
          ∷ reg.owner_sessions;
    },
  )

unfoldable pub start_session :
    ℕ → StartValue → TransportFactory → Registry → Result StartError (StartOutcome × Registry)
start_session max_sessions start factory reg =
    start_found max_sessions start factory (get_session start.platform_session_id reg) reg

-- The first call of `session.close`: it is marked closed before its resources are disposed of.
unfoldable pub begin_close : Key → Registry → Registry
begin_close id reg = record reg {
  sessions = modify (has_session_id id) (λ s. record s { closed = true }) reg.sessions;
}

abbrev belongs_to : Key → Option OwnerEntry → Bool
belongs_to id none = false
belongs_to id (some e) = e.session_id == id

unfoldable pub remove : Key → Key → Registry → Registry
remove id owner reg =
    let kept = select (λ s. not (has_session_id id s)) reg.sessions in
    record {
      sessions = kept;
      owner_sessions =
          if belongs_to id (owner_session owner reg)
          then select (λ e. not (has_owner owner e)) reg.owner_sessions
          else reg.owner_sessions;
    }

-- One thing that happens to the registry: a start that returns or throws, the beginning of a close,
-- and the close callback of a session that is being closed.
pub data Step (max_sessions : ℕ) : Registry → Registry → Type 0 where
  starts :
      {reg reg' : Registry} (start : StartValue) (factory : TransportFactory) (out : StartOutcome)
      → start_session max_sessions start factory reg ≡ ok (out, reg')
      → Step max_sessions reg reg'
  begins_close : {reg : Registry} (id : Key) → Step max_sessions reg (begin_close id reg)
  is_closed :
      {reg : Registry} (s : LiveSession)
      → get_session s.id reg ≡ some s
      → s.closed ≡ true
      → Step max_sessions reg (remove s.id s.owner_id reg)

pub data Reachable (max_sessions : ℕ) : Registry → Type 0 where
  fresh_registry : Reachable max_sessions (record { sessions = []; owner_sessions = [] })
  next :
      {reg reg' : Registry}
      → Reachable max_sessions reg
      → Step max_sessions reg reg'
      → Reachable max_sessions reg'
