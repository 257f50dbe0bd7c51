-- ===== src/ActionRegistry/Laws.antt =====
-- What becomes of the signals that the registry hands out.
use qwen_harness_bridge.Database.{Key}
use qwen_harness_bridge.Text.{Text}
use qwen_harness_bridge.ActionRegistry.{
  register, perform, ActionRegistry, revoke, unregister_owner, unregister, is_aborted, new_registry,
  Entry, Agent, perform_all, Text, delete_owner, RegistryCall, Key, Bool, register_owner,
  TrustedActionRegistration, withdraw, ◌∷◌, not, true, suc, ok, find_action, registers_owner,
  is_owner, map, unregisters_owner, is_call, withdraws, registers, unregisters, Option,
}
use qwen_harness_bridge.Prelude.{
  none, some, ℕ, ◌≡◌, select, List, any, arith, All, Bool, ◌==◌, true, Bool-cases, not, ◌∷◌, ◌<◌,
  ◌⊎◌, map, ok, suc, inl, [], ◌++◌, inr, ==_iff, refl, Result-cases, subst, Option, sym,
  if◌then◌else◌,
}

abbrev holds : ℕ → Entry → Bool
holds t e = e.token == t

-- Tokens are numbered in the order of their issue, and one that was issued is stored or aborted.
record IsSound (reg : ActionRegistry) : Type 0 where
  stored : All (λ e. e.token < reg.next_token) reg.actions
  past : All (λ t. t < reg.next_token) reg.aborted
  issued :
      (t : ℕ) → t < reg.next_token → (any (holds t) reg.actions ≡ true) ⊎ (is_aborted t reg ≡ true)

select-All {ℓ κ} :
    {A : Type ℓ} (P : A → Type κ) (q : A → Bool) (xs : List A) → All P xs → All P (select q xs)
unfolding select
select-All P q [] a = tt
select-All P q (x ∷ xs) a = elim (Bool-cases (q x)) [
  | inl e ↦ rw e (a.0, select-All P q xs a.1)
  | inr e ↦ rw e (select-All P q xs a.1)
]

tokens_past :
    (n : ℕ) (es : List Entry) (old : List ℕ)
    → All (λ e. e.token < n) es
    → All (λ t. t < n) old
    → All (λ t. t < n) (map (λ e. e.token) es ++ old)
tokens_past n [] old a b = b
tokens_past n (e ∷ es) old a b = (a.0, tokens_past n es old a.1 b)

-- An entry that is taken out has its token among those aborted.
split_entry :
    (t : ℕ) (p : Entry → Bool) (es : List Entry) (old : List ℕ)
    → (any (holds t) es ≡ true) ⊎ (any (λ x. x == t) old ≡ true)
    → (any (holds t) (select (λ e. not (p e)) es) ≡ true)
      ⊎ (any (λ x. x == t) (map (λ e. e.token) (select p es) ++ old) ≡ true)
unfolding any select
split_entry t p [] old h = h
split_entry t p (e ∷ es) old h = elim (Bool-cases (p e)) [
  | inl gone ↦ rw gone (ground (arith, split_entry t p es old))
  | inr kept ↦ rw kept (ground (arith, split_entry t p es old))
]

revoke-IsSound : (p : Entry → Bool) (reg : ActionRegistry) → IsSound reg → IsSound (revoke p reg)
unfolding revoke is_aborted
revoke-IsSound p reg s = record {
  stored = select-All _ (λ e. not (p e)) reg.actions s.stored;
  past =
      tokens_past reg.next_token (select p reg.actions) reg.aborted
        (select-All _ p reg.actions s.stored) s.past;
  issued = λ t h. split_entry t p reg.actions reg.aborted (s.issued t h);
}

All-weaken :
    {A : Type 0} (f : A → ℕ) (n : ℕ) (xs : List A)
    → All (λ x. f x < n) xs
    → All (λ x. f x < suc n) xs
All-weaken f n [] a = tt
All-weaken f n (x ∷ xs) a = (omega (arith, a.0), All-weaken f n xs a.1)

register_returns :
    (agent : Agent) (call : Text) (input : TrustedActionRegistration) (reg reg' : ActionRegistry)
    (t : ℕ)
    → register agent call input reg ≡ ok (t, reg')
    → (t ≡ reg.next_token)
      × (reg'.next_token ≡ suc reg.next_token)
      × (reg'.aborted ≡ (revoke (is_call agent.id call) reg).aborted)
      × (reg'.actions
          ≡ record { agent_id = agent.id; call_id = call; action = input; token = reg.next_token }
            ∷ (revoke (is_call agent.id call) reg).actions)
unfolding register
register_returns agent call input reg reg' t h = ground arith

registered-IsSound :
    (agent : Agent) (call : Text) (input : TrustedActionRegistration) (reg reg' : ActionRegistry)
    (t : ℕ)
    → register agent call input reg ≡ ok (t, reg')
    → IsSound reg
    → IsSound reg'
registered-IsSound agent call input reg reg' t h s =
    let (_, next, gone, kept) = register_returns agent call input reg reg' t h in
    let r = revoke-IsSound (is_call agent.id call) reg s in
    let same : (revoke (is_call agent.id call) reg).next_token ≡ reg.next_token =
      unfold revoke in refl in
    let cleared = revoke (is_call agent.id call) reg in
    let stored : All (λ (e : Entry). e.token < reg.next_token) cleared.actions =
      subst (λ (n : ℕ). All (λ (e : Entry). e.token < n) cleared.actions) same r.stored in
    let past : All (λ (x : ℕ). x < reg.next_token) cleared.aborted =
      subst (λ (n : ℕ). All (λ (x : ℕ). x < n) cleared.aborted) same r.past in
    let wider = All-weaken (λ (e : Entry). e.token) reg.next_token cleared.actions stored in
    let bound : All (λ (e : Entry). e.token < reg'.next_token) cleared.actions =
      subst (λ (n : ℕ). All (λ (e : Entry). e.token < n) cleared.actions) (sym next) wider in
    let past' : All (λ (x : ℕ). x < suc reg.next_token) cleared.aborted =
      All-weaken (λ (x : ℕ). x) reg.next_token cleared.aborted past in
    record {
      stored =
          subst (λ (es : List Entry). All (λ (e : Entry). e.token < reg'.next_token) es) (sym kept)
            (omega (arith, next), bound);
      past =
          subst (λ (ts : List ℕ). All (λ (x : ℕ). x < reg'.next_token) ts) (sym gone)
            (subst (λ (n : ℕ). All (λ (x : ℕ). x < n) cleared.aborted) (sym next) past');
      issued = λ x small.
          unfold is_aborted any in
          rw (kept, gone)
            (elim (Bool-cases (reg.next_token == x)) [
              | inl new ↦ inl (ground arith)
              | inr old ↦ elim (r.issued x (ground (arith, ==_iff reg.next_token x))) [
                | inl a ↦ inl (ground arith)
                | inr b ↦ inr (unfold is_aborted in b)
              ]
            ]);
    }

owners-IsSound :
    (reg : ActionRegistry) (owners : List Agent)
    → IsSound reg
    → IsSound (record reg { owners = owners })
unfolding is_aborted
owners-IsSound reg owners s = record { stored = s.stored; past = s.past; issued = s.issued }

unregister_owner-IsSound :
    (agent : Agent) (reg : ActionRegistry) → IsSound reg → IsSound (unregister_owner agent reg)
unfolding unregister_owner delete_owner
unregister_owner-IsSound agent reg s = elim (Bool-cases (is_owner agent reg)) [
  | inl e ↦ rw e (owners-IsSound reg _ s)
  | inr e ↦ rw e s
]

unregister-IsSound :
    (id : Key) (call : Text) (t : ℕ) (reg : ActionRegistry)
    → IsSound reg
    → IsSound (unregister id call t reg)
unfolding unregister
unregister-IsSound id call t reg s = by_found (find_action id call reg)
  where
    by_found :
        (o : Option Entry)
        → IsSound (elim o [
          | none ↦ reg
          | some e ↦ if e.token == t then revoke (is_call id call) reg else reg
        ])
    by_found none = s
    by_found (some e) = elim (Bool-cases (e.token == t)) [
      | inl same ↦ rw same (revoke-IsSound (is_call id call) reg s)
      | inr apart ↦ rw apart s
    ]

perform-IsSound : (c : RegistryCall) (reg : ActionRegistry) → IsSound reg → IsSound (perform c reg)
unfolding perform register_owner delete_owner withdraw
perform-IsSound (registers_owner agent) reg s = owners-IsSound reg _ s
perform-IsSound (unregisters_owner agent) reg s = unregister_owner-IsSound agent reg s
perform-IsSound (withdraws agent) reg s = revoke-IsSound _ _ (unregister_owner-IsSound agent reg s)
perform-IsSound (registers agent call input) reg s =
    elim (Result-cases (register agent call input reg)) [
      | inl ((t, reg'), e) ↦ rw e (registered-IsSound agent call input reg reg' t e s)
      | inr (x, e) ↦ rw e s
    ]
perform-IsSound (unregisters id call t) reg s = unregister-IsSound id call t reg s

perform_all-IsSound :
    (cs : List RegistryCall) (reg : ActionRegistry) → IsSound reg → IsSound (perform_all cs reg)
unfolding perform_all
perform_all-IsSound [] reg s = s
perform_all-IsSound (c ∷ cs) reg s = perform_all-IsSound cs _ (perform-IsSound c reg s)

new_registry-IsSound : IsSound new_registry
unfolding new_registry
new_registry-IsSound = record { stored = tt; past = tt; issued = λ t h. absurd (omega arith) }

-- No signal is lost. After any calls on a new registry, each token that was ever issued either has its
-- signal aborted or still stands in the table of actions: replacing, withdrawing and unregistering an
-- entry never drop it without aborting it.
pub issued_revoked :
    (cs : List RegistryCall) (t : ℕ)
    → t < (perform_all cs new_registry).next_token
    → (any (λ e. e.token == t) (perform_all cs new_registry).actions ≡ true)
      ⊎ (is_aborted t (perform_all cs new_registry) ≡ true)
issued_revoked cs t h = (perform_all-IsSound cs new_registry new_registry-IsSound).issued t h
