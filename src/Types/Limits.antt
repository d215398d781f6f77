-- ===== src/Types/Limits.antt =====
-- src/types.ts: `LIMITS`, in UTF-16 code units.
use dsh_workflow_plugin.Prelude.{ℕ}

abbrev pub criteria_min : ℕ
criteria_min = 1

abbrev pub criteria_max : ℕ
criteria_max = 8000

abbrev pub reason_max : ℕ
reason_max = 2000

abbrev pub handoff_max : ℕ
handoff_max = 8000

abbrev pub resolution_max : ℕ
resolution_max = 8000

abbrev pub block_reason_max : ℕ
block_reason_max = 4000

abbrev pub provider_max : ℕ
provider_max = 64

abbrev pub model_id_max : ℕ
model_id_max = 128

abbrev pub reasoning_effort_max : ℕ
reasoning_effort_max = 64

abbrev pub program_parameters_max : ℕ
program_parameters_max = 8000
