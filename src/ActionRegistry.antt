-- ===== src/ActionRegistry.antt =====
-- packages/harness-plugin/src/runtime/action-registry.ts: TrustedActionRegistry. The map of maps of
-- actions is one list of entries under two keys, and the signals that were aborted are kept by token.
pub mod Laws
mod Examples
use qwen_harness_bridge.Database.{Key}
use qwen_harness_bridge.Text.{Text, text_eq}
use qwen_harness_bridge.Prelude.{
  none, some, ℕ, ◌≡◌, [], Bool, if◌then◌else◌, Result, List, ◌==◌, ◌∷◌, select, ◌&&◌, ok, Option,
  ◌>>◌, true, any, err, false, not, find, guard, suc, map, ◌++◌,
}

-- An agent object: `id` is String(agent.id), `object` its identity.
pub record Agent : Type 0 where
  pub id : Key
  pub object : Key

pub record TrustedActionRegistration : Type 0 where
  pub job_id : Key
  pub attempt : ℕ
  pub tool_name : Text
  pub source_tool : Option Text
  pub fingerprint : Key
  pub classification : Text
  pub action_summary : Text
  pub impact_summary : Text

-- The controller and the token of an entry are made together: one number stands for both.
pub record Entry : Type 0 where
  pub agent_id : Key
  pub call_id : Text
  pub action : TrustedActionRegistration
  pub token : ℕ

pub record ActionRegistry : Type 0 where
  pub owners : List Agent
  pub actions : List Entry
  pub aborted : List ℕ
  pub next_token : ℕ

pub data OwnerRequired : Type 0 where
  action_registry_owner_required : OwnerRequired

abbrev pub has_agent_id : Key → Agent → Bool
has_agent_id id a = a.id == id

unfoldable pub find_owner : Key → ActionRegistry → Option Agent
find_owner id reg = find (has_agent_id id) reg.owners

unfoldable pub is_owner : Agent → ActionRegistry → Bool
is_owner agent reg = elim (find_owner agent.id reg) [
  | none ↦ false
  | some a ↦ a.object == agent.object
]

unfoldable pub delete_owner : Key → ActionRegistry → ActionRegistry
delete_owner id reg = record reg { owners = select (λ a. not (has_agent_id id a)) reg.owners }

unfoldable pub register_owner : Agent → ActionRegistry → ActionRegistry
unfolding delete_owner
register_owner agent reg = record reg { owners = agent ∷ (delete_owner agent.id reg).owners }

-- What the function that registerOwner returns does.
unfoldable pub unregister_owner : Agent → ActionRegistry → ActionRegistry
unregister_owner agent reg = if is_owner agent reg then delete_owner agent.id reg else reg

-- The entries that meet the test are deleted and their controllers aborted.
unfoldable pub revoke : (Entry → Bool) → ActionRegistry → ActionRegistry
revoke p reg = record reg {
  actions = select (λ e. not (p e)) reg.actions;
  aborted = map (λ e. e.token) (select p reg.actions) ++ reg.aborted;
}

unfoldable pub withdraw : Agent → ActionRegistry → ActionRegistry
withdraw agent reg = revoke (λ e. e.agent_id == agent.id) (unregister_owner agent reg)

abbrev pub is_call : Key → Text → Entry → Bool
is_call id call e = (e.agent_id == id) && text_eq e.call_id call

abbrev is_empty : Text → Bool
is_empty [] = true
is_empty (c ∷ cs) = false

-- The new token with the registry: the entry that was under the same call is aborted and replaced.
unfoldable pub register :
    Agent
    → Text
    → TrustedActionRegistration
    → ActionRegistry
    → Result OwnerRequired (ℕ × ActionRegistry)
register agent call input reg = do
  guard (is_owner agent reg && not (is_empty call)) action_registry_owner_required
  let cleared = revoke (is_call agent.id call) reg
  ok (
    reg.next_token,
    record cleared {
      actions =
          record { agent_id = agent.id; call_id = call; action = input; token = reg.next_token }
          ∷ cleared.actions;
      next_token = suc reg.next_token;
    },
  )

unfoldable pub find_action : Key → Text → ActionRegistry → Option Entry
find_action id call reg = find (is_call id call) reg.actions

-- What the function that register returns does, for the token of its registration.
unfoldable pub unregister : Key → Text → ℕ → ActionRegistry → ActionRegistry
unregister id call token reg = elim (find_action id call reg) [
  | none ↦ reg
  | some e ↦ if e.token == token then revoke (is_call id call) reg else reg
]

unfoldable pub is_aborted : ℕ → ActionRegistry → Bool
is_aborted token reg = any (λ t. t == token) reg.aborted

unfoldable pub resolve_action : Agent → Text → ActionRegistry → Option TrustedActionRegistration
resolve_action agent call reg = elim (find_action agent.id call reg) [
  | none ↦ none
  | some e ↦ if is_aborted e.token reg then none else some e.action
]

-- The calls that change the registry, those that threw included.
pub data RegistryCall : Type 0 where
  registers_owner unregisters_owner withdraws : Agent → RegistryCall
  registers : Agent → Text → TrustedActionRegistration → RegistryCall
  unregisters : Key → Text → ℕ → RegistryCall

abbrev or_same : ActionRegistry → Result OwnerRequired (ℕ × ActionRegistry) → ActionRegistry
or_same reg (ok (t, reg')) = reg'
or_same reg (err e) = reg

unfoldable pub perform : RegistryCall → ActionRegistry → ActionRegistry
perform (registers_owner agent) reg = register_owner agent reg
perform (unregisters_owner agent) reg = unregister_owner agent reg
perform (withdraws agent) reg = withdraw agent reg
perform (registers agent call input) reg = or_same reg (register agent call input reg)
perform (unregisters id call token) reg = unregister id call token reg

unfoldable pub perform_all : List RegistryCall → ActionRegistry → ActionRegistry
perform_all [] reg = reg
perform_all (c ∷ cs) reg = perform_all cs (perform c reg)

unfoldable pub new_registry : ActionRegistry
new_registry = record { owners = []; actions = []; aborted = []; next_token = 0 }
