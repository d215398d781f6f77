-- ===== src/Engine/Program/Parameters.antt =====
-- src/engine/engine.ts: `programParameters` and `effectiveProgramResult`; the parameters that each
-- program takes are those of src/programs/metadata.ts.
use dsh_workflow_plugin.Prelude.{
  ℕ, zero, suc, ◌+◌, String, Text, codes, take, trim, is_empty, ltb, length, Bool, true, false,
  ◌&&◌, ◌||◌, not, ◌==◌, nat_eq, Option, none, some, is_some, is_none, or_else, opt_bind, opt_map,
  List, [], ◌∷◌, ◌++◌, lookup, keys, any_of, Result, ok, err, Assoc, ◌>>=◌, ◌>>◌, throw_if,
}
use dsh_workflow_plugin.Prelude
use dsh_workflow_plugin.Types.Limits
use dsh_workflow_plugin.Types.Graph.{BuiltinProgramNode, Value}
use dsh_workflow_plugin.Types.Programs.{ParameterType, builtin_parameters}
use dsh_workflow_plugin.Types.Execution.{ProgramKind, ProgramOutcome, ProgramResult}

fits_type : ParameterType → Value → Bool
fits_type ParameterType.string (Value.text t) = not (is_empty (trim t))
fits_type ParameterType.number (Value.number n) = true
fits_type _ _ = false

check_values : Assoc ParameterType → Assoc Value → Result (Unit {0})
unfolding fits_type
check_values [] parameters = ok tt
check_values ((key, type) ∷ rest) parameters = elim (lookup key parameters) [
  | none ↦ err "program parameter is required"
  | some value ↦ elim (fits_type type value) [
    | true ↦ check_values rest parameters
    | false ↦ err "program parameter has another type"
  ]
]

-- `{ ...config, ...supplied }`.
spread : Assoc Value → Assoc Value → Assoc Value
spread config [] = config
spread config ((k, v) ∷ supplied) = spread (Prelude.put k v config) supplied

check_parameters : (Assoc Value → ℕ) → Assoc ParameterType → Assoc Value → Result (Assoc Value)
unfolding check_values
check_parameters encoded_length types parameters = do
  throw_if (any_of (λ key. is_none (lookup key types)) (keys parameters))
      "unknown program parameter"
  check_values types parameters
  throw_if (ltb Limits.program_parameters_max (encoded_length parameters))
      "program parameters are too long"
  ok parameters

-- `programParameters`; the length of the JSON text is the host's.
pub program_parameters : (Assoc Value → ℕ) → BuiltinProgramNode → Assoc Value → Result (Assoc Value)
unfolding check_parameters
program_parameters encoded_length n supplied = elim (lookup n.program_id builtin_parameters) [
  | none ↦ err "unknown program"
  | some types ↦ check_parameters encoded_length types (spread (or_else n.config []) supplied)
]

bounded_handoff : ProgramKind → Text → Option Text → Result ProgramOutcome
bounded_handoff kind handoff reason = do
  throw_if (is_empty handoff || ltb Limits.handoff_max (length handoff))
      "Program handoff must be 1..8000 characters"
  ok (ProgramOutcome.done kind handoff reason)

trimmed_or : Option Text → Text → Text
trimmed_or none input = input
trimmed_or (some handoff) input = trim handoff

fail_reason : Option Text → Option Text
fail_reason none = none
fail_reason (some reason) = elim (is_empty (trim reason)) [
  | true ↦ none
  | false ↦ some (take Limits.block_reason_max (trim reason))
]

-- `effectiveProgramResult`: without a handoff of its own the program passes on its input.
pub effective_program_result : ProgramResult → Text → Result ProgramOutcome
unfolding bounded_handoff trimmed_or fail_reason
effective_program_result (ProgramResult.error reason) input =
    elim (is_empty (trim reason) || ltb Limits.block_reason_max (length (trim reason))) [
      | true ↦ err "Program ERROR requires a bounded reason"
      | false ↦ ok (ProgramOutcome.error (trim reason))
    ]
effective_program_result (ProgramResult.pass handoff) input =
    bounded_handoff ProgramKind.pass (trimmed_or handoff input) none
effective_program_result (ProgramResult.fail reason handoff) input =
    bounded_handoff ProgramKind.fail (trimmed_or handoff input) (fail_reason reason)

abbrev pub kind_name : ProgramKind → String
kind_name ProgramKind.pass = "PASS"
kind_name ProgramKind.fail = "FAIL"
