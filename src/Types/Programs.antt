-- ===== src/Types/Programs.antt =====
-- src/programs/metadata.ts: the programs that a node can run, and the parameters that each takes.
use dsh_workflow_plugin.Prelude.{String, List, [], ◌∷◌, Assoc}

pub data ParameterType : Type 0 where
  string number : ParameterType

-- The type of each parameter; all are required.
abbrev pub builtin_parameters : Assoc (Assoc ParameterType)
builtin_parameters =
    (
      "github.initialize-milestone",
      ("title", ParameterType.string) ∷ ("branchName", ParameterType.string) ∷ [],
    )
    ∷ ("github.all-milestone-issues-complete", ("milestoneNumber", ParameterType.number) ∷ [])
    ∷ []

abbrev pub builtin_program_ids : List String
builtin_program_ids = "github.initialize-milestone" ∷ "github.all-milestone-issues-complete" ∷ []
