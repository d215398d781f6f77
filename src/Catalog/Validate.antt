-- ===== src/Catalog/Validate.antt =====
-- src/catalog/validate.ts: `validateAndNormalize`. It rejects a config with all its problems, or returns
-- it normalized, with the warnings.
pub mod Entries
pub mod Accepted
pub mod Routed
pub mod Walks
pub mod Stable
pub mod Again
pub mod Twice
pub mod Fixed
use dsh_workflow_plugin.Prelude.{
  String, Text, trim, is_id, Bool, true, false, not, Option, none, some, or_else, opt_map, List, [],
  ◌∷◌, ◌++◌, Assoc, Result, ok, err,
}
use dsh_workflow_plugin.Prelude
use dsh_workflow_plugin.Types.Graph.{RoleDefinition, WorkflowDef, WorkflowConfig}
use dsh_workflow_plugin.State.Tests.{when}
use dsh_workflow_plugin.Catalog.Normalize.{trim_given, normalized_catalog}
use dsh_workflow_plugin.Catalog.Problems.{
  each_entry, is_blank_given, persona_warnings, role_problems, model_problems, workflow_problems,
  cycle_problems,
}

pub record Validated : Type 0 where
  pub config : WorkflowConfig
  pub warnings : List String

-- All workflows: the root stands in for a child of its name.
unfoldable pub all_workflows : WorkflowConfig → String → Assoc WorkflowDef
all_workflows config root_name =
    Prelude.put root_name config.workflow (or_else config.child_workflows [])

abbrev is_bad_id : Option String → Bool
is_bad_id none = false
is_bad_id (some id) = not (is_id id)

abbrev pub root_name_of : Option String → String
root_name_of workflow_id = or_else workflow_id "root"

pub all_problems : WorkflowConfig → Option String → List String
unfolding each_entry role_problems all_workflows workflow_problems cycle_problems
all_problems config workflow_id =
    when (is_bad_id workflow_id) "workflow id is not a valid lowercase id"
    ++ when (is_blank_given config.actor_common_persona)
        "actorCommonPersona must be a non-empty string when provided"
    ++ each_entry role_problems config.roles
    ++ model_problems config.judge_role.model config.judge_role.fallback_model
    ++ each_entry (workflow_problems config (root_name_of workflow_id))
        (all_workflows config (root_name_of workflow_id))
    ++ cycle_problems (or_else config.child_workflows [])

given_warnings : Option Text → List String
unfolding persona_warnings
given_warnings none = []
given_warnings (some persona) = persona_warnings persona

pub role_warnings : String → RoleDefinition → List String
unfolding persona_warnings
role_warnings role_key role = persona_warnings (trim role.persona)

unfoldable pub all_warnings : WorkflowConfig → List String
unfolding each_entry given_warnings role_warnings trim_given
all_warnings config =
    given_warnings (trim_given config.actor_common_persona)
    ++ each_entry role_warnings config.roles
    ++ persona_warnings (trim config.judge_role.persona)

abbrev pub verdict : List String → Validated → Result Validated
verdict [] v = ok v
verdict (p ∷ ps) v = err "workflow config invalid"

unfoldable pub validate_and_normalize : WorkflowConfig → Option String → Result Validated
unfolding all_problems all_warnings normalized_catalog
validate_and_normalize config workflow_id = verdict (all_problems config workflow_id) (record {
  config = normalized_catalog (root_name_of workflow_id) config;
  warnings = all_warnings config;
})
