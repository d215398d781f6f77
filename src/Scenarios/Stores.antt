-- ===== src/Scenarios/Stores.antt =====
-- The theorems on the store: a run is created, an execution is written, and one that has left stays.
use dsh_workflow_plugin.Prelude.{
  true, false, none, some, [], ◌∷◌, lookup, put, trim, includes, keys, Result, ok, err, ◌≡◌, ◌≢◌,
  refl, opt_eq, text_eq,
}
use dsh_workflow_plugin.Types.Execution.{
  NodeExecution, ExecutionChange, actor_arranged, ready, exited,
}
use dsh_workflow_plugin.State.Schema.{execution_schema}
use dsh_workflow_plugin.State.Tests.{node_in, workflow_def, has_current, has_actor_materials}
use dsh_workflow_plugin.State.Checks.{
  position_problems, kind_problems, exit_problems, binding_problems, judgment_problems,
  resolution_problems, phase_problems,
}
use dsh_workflow_plugin.State.Invariants.{
  Definitions, check_execution_invariants, check_run_invariants, check_state_invariants,
  has_duplicate,
}
use dsh_workflow_plugin.State.Store.{DeepEqual, Database, execution_row, latest_in, bump}
use dsh_workflow_plugin.State.Store.Transactions.{
  create_row, update_row, write_execution, write_all, assert_current, decode,
}
use dsh_workflow_plugin.State.Store.Versions.{Bumped, update_row-once}
use dsh_workflow_plugin.State.Store.Frozen.{Frozen, update_row-Frozen}
use dsh_workflow_plugin.State.Store.Creation.{Created, create_row-once}
use dsh_workflow_plugin.Scenarios.{run, working_execution}

abbrev defs : Definitions
defs = record {
  formats = record { is_uuid = λ s. true; is_datetime = λ s. true };
  config_schema = λ c. true;
  definition_hash = λ c. "h";
}

abbrev deep : DeepEqual
deep = record {
  same_config = λ x y. opt_eq text_eq x.actor_common_persona y.actor_common_persona;
  same_execution = λ x y. false;
}

-- What it calls equal is equal.
unequal : (x y : NodeExecution) → deep.same_execution x y ≡ true → x ≡ y
unequal x y h = cc

abbrev first_execution : NodeExecution
first_execution = record working_execution { revision = 0; phase = ready; dispatch = none }

abbrev empty_db : Database
empty_db = record { runs = []; executions = []; events = [] }

abbrev value : Result Database → Database
value (ok db) = db
value (err message) = empty_db

-- The execution is arranged: it waits for its actor.
abbrev arranged : ExecutionChange
arranged = record {
  execution = record working_execution { revision = 1 };
  expected_revision = some 1;
  events = actor_arranged ∷ [];
}

abbrev created_db : Database
created_db = value (create_row defs deep empty_db "ws" run first_execution)

abbrev updated_db : Database
updated_db = value (update_row defs deep created_db "ws" run 1 (arranged ∷ []))

create_row_runs : create_row defs deep empty_db "ws" run first_execution ≡ ok created_db
unfolding create_row latest_in trim execution_row lookup put check_state_invariants
    check_run_invariants check_execution_invariants execution_schema node_in workflow_def
    has_current has_actor_materials includes keys has_duplicate bump decode write_execution
    write_all assert_current position_problems kind_problems exit_problems binding_problems
    judgment_problems resolution_problems phase_problems text_eq
create_row_runs = refl

create_row-once_example :
    Created defs deep empty_db "ws" run created_db
    × (create_row defs deep created_db "ws" run first_execution ≢ ok created_db)
create_row-once_example =
    create_row-once defs deep empty_db "ws" run first_execution created_db run first_execution
      created_db create_row_runs

update_row_runs : update_row defs deep created_db "ws" run 1 (arranged ∷ []) ≡ ok updated_db
unfolding create_row update_row latest_in trim execution_row lookup put check_state_invariants
    check_run_invariants check_execution_invariants execution_schema node_in workflow_def
    has_current has_actor_materials includes keys has_duplicate bump decode write_execution
    write_all assert_current position_problems kind_problems exit_problems binding_problems
    judgment_problems resolution_problems phase_problems text_eq
update_row_runs = refl

update_row-once_example :
    Bumped defs deep created_db "ws" run 1 updated_db
    × (update_row defs deep updated_db "ws" run 1 (arranged ∷ []) ≢ ok updated_db)
update_row-once_example =
    update_row-once defs deep created_db "ws" run 1 (arranged ∷ []) updated_db run (arranged ∷ [])
      updated_db update_row_runs

-- An execution that has left, and the next visit.
abbrev left_execution : NodeExecution
left_execution = record working_execution {
  execution_id = "e0";
  node_token = "t0";
  phase = exited;
  exited_at = some "now";
  successor_id = some "e1";
}

abbrev next_execution : NodeExecution
next_execution = record working_execution { visit = 2; revision = 1; predecessor_id = some "e0" }

abbrev visited_db : Database
visited_db = record {
  runs = record { workspace_key = "ws"; state_version = 2; run = run } ∷ [];
  executions = ("e0", left_execution) ∷ ("e1", next_execution) ∷ [];
  events = [];
}

abbrev claimed_change : ExecutionChange
claimed_change = record {
  execution = next_execution;
  expected_revision = some 1;
  events = actor_arranged ∷ [];
}

abbrev next_db : Database
next_db = value (update_row defs deep visited_db "ws" run 2 (claimed_change ∷ []))

next_runs : update_row defs deep visited_db "ws" run 2 (claimed_change ∷ []) ≡ ok next_db
unfolding update_row latest_in trim execution_row lookup put check_state_invariants
    check_run_invariants check_execution_invariants execution_schema node_in workflow_def
    has_current has_actor_materials includes keys has_duplicate bump decode write_execution
    write_all assert_current position_problems kind_problems exit_problems binding_problems
    judgment_problems resolution_problems phase_problems text_eq
next_runs = refl

left_there : execution_row visited_db run "e0" ≡ some left_execution
unfolding execution_row lookup
left_there = refl

update_row-Frozen_example : Frozen defs deep unequal run "e0" left_execution next_db
update_row-Frozen_example =
    update_row-Frozen defs deep unequal visited_db "ws" run 2 (claimed_change ∷ []) next_db "e0"
      left_execution left_there refl next_runs
