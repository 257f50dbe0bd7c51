-- ===== src/ActionRegistry/Examples.antt =====
-- Two registrations of one call.
use qwen_harness_bridge.ActionRegistry.Laws.{issued_revoked}
use qwen_harness_bridge.Text.{units, text_eq}
use qwen_harness_bridge.ActionRegistry.{
  TrustedActionRegistration, perform_all, Agent, perform, RegistryCall, registers_owner, none,
  register_owner, delete_owner, register, registers, revoke, [], is_owner, find_owner, find, select,
  text_eq, new_registry, any, is_aborted, true,
}
use qwen_harness_bridge.Prelude.{
  ◌≡◌, List, none, ◌∷◌, [], find, select, any, true, ◌==◌, ◌⊎◌, refl, arith,
}

abbrev agent : Agent
agent = record { id = 1; object = 2 }

abbrev push_action : TrustedActionRegistration
push_action = record {
  job_id = 3;
  attempt = 1;
  tool_name = units "git_push";
  source_tool = none;
  fingerprint = 4;
  classification = units "APPROVAL";
  action_summary = units "push";
  impact_summary = units "remote";
}

abbrev replaced : List RegistryCall
replaced =
    registers_owner agent
    ∷ registers agent (units "c") push_action
    ∷ registers agent (units "c") push_action
    ∷ []

issued_revoked_example :
    (any (λ e. e.token == 0) (perform_all replaced new_registry).actions ≡ true)
    ⊎ (is_aborted 0 (perform_all replaced new_registry) ≡ true)
unfolding perform_all perform register_owner delete_owner register revoke is_owner find_owner find
    select text_eq new_registry
issued_revoked_example = issued_revoked replaced 0 (omega arith)

-- The first registration is the one that was replaced.
replaced_aborted : is_aborted 0 (perform_all replaced new_registry) ≡ true
unfolding perform_all perform register_owner delete_owner register revoke is_owner find_owner find
    select text_eq new_registry is_aborted any
replaced_aborted = refl
