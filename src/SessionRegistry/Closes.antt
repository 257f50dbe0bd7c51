-- ===== src/SessionRegistry/Closes.antt =====
-- What the registry holds while a session is closed and afterwards.
use mathlib.Core.Option
use qwen_harness_bridge.Database.{Key}
use qwen_harness_bridge.SessionRegistry.{
  owner_session, begin_close, get_session, Registry, remove, Key, LiveSession, OwnerEntry,
  has_owner, has_session_id,
}
use qwen_harness_bridge.Prelude.{
  ◌≡◌, find, length, ◌≤◌, some, none, ◌∷◌, arith, true, inl, inr, select, Bool-cases, if◌then◌else◌,
  refl, Bool, ◌==◌, List, ==_refl, find-select-none, ==_iff, not, [], find-select, find-modify_kept,
  ◌<◌,
}

abbrev pub closing : Key → LiveSession → LiveSession
closing id s = if has_session_id id s then record s { closed = true } else s

pub closing-keeps :
    (id : Key) (s : LiveSession)
    → ((closing id s).id ≡ s.id) × ((closing id s).owner_id ≡ s.owner_id)
closing-keeps id s = ground arith

pub get_session-begin_close :
    (k id : Key) (reg : Registry)
    → get_session k (begin_close id reg) ≡ Option.map (closing id) (get_session k reg)
unfolding get_session begin_close
get_session-begin_close k id reg =
    find-modify_kept (has_session_id k) (has_session_id id) _ (λ s. refl) reg.sessions

pub owner_session-begin_close :
    (owner id : Key) (reg : Registry)
    → owner_session owner (begin_close id reg) ≡ owner_session owner reg
unfolding owner_session begin_close
owner_session-begin_close owner id reg = refl

pub length-select-le {ℓ} :
    {A : Type ℓ} (p : A → Bool) (xs : List A) → length (select p xs) ≤ length xs
unfolding select
length-select-le p [] = omega arith
length-select-le p (x ∷ xs) = ground (arith, length-select-le p xs)

pub length-select-lt {ℓ} :
    {A : Type ℓ} (p : A → Bool) (x : A) (xs : List A)
    → find p xs ≡ some x
    → length (select (λ y. not (p y)) xs) < length xs
unfolding find select
length-select-lt p x [] h = absurd (ground arith)
length-select-lt p x (y ∷ ys) h = elim (Bool-cases (p y)) [
  | inl e ↦ rw e (omega (arith, length-select-le (λ z. not (p z)) ys))
  | inr e ↦ rw e (omega (arith, length-select-lt p x ys (ground arith)))
]

-- Sessions of other ids are read as before, and that of the id is gone.
pub get_session-remove :
    (k id owner : Key) (reg : Registry)
    → get_session k (remove id owner reg) ≡ (if k == id then none else get_session k reg)
unfolding get_session remove
get_session-remove k id owner reg = elim (Bool-cases (k == id)) [
  | inl same ↦ rw same (
      find-select-none (has_session_id k) (λ s. not (has_session_id id s))
        (λ s h. ground (arith, (==_iff k id).0 same)) reg.sessions)
  | inr apart ↦ rw apart (
      find-select (has_session_id k) (λ s. not (has_session_id id s))
        (λ s h. ground (arith, ==_iff s.id k, ==_iff s.id id, ==_iff k id)) reg.sessions)
]

pub owner_session-remove :
    (k id owner : Key) (reg : Registry) (e : OwnerEntry)
    → owner_session owner reg ≡ some e
    → e.session_id ≡ id
    → owner_session k (remove id owner reg) ≡ (if k == owner then none else owner_session k reg)
unfolding owner_session remove
owner_session-remove k id owner reg e found mine =
    rw (found, mine, ==_refl id)
      (elim (Bool-cases (k == owner)) [
        | inl same ↦ rw same (
            find-select-none (has_owner k) (λ x. not (has_owner owner x))
              (λ x h. ground (arith, (==_iff k owner).0 same)) reg.owner_sessions)
        | inr apart ↦ rw apart (
            find-select (has_owner k) (λ x. not (has_owner owner x))
              (λ x h. ground (arith, ==_iff x.owner k, ==_iff x.owner owner, ==_iff k owner))
              reg.owner_sessions)
      ])
