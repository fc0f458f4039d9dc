-- ===== src/Controller/Actions/Groups.antt =====
-- What it means that the annotation groups of a task end without an error.
use dynamic_annotation_contr.Base.{◌⊎◌, ◌≡◌, true, Option, none, List, [], ◌∷◌, arith, All}
use dynamic_annotation_contr.Manager.Groups.{GroupResult, no_error}
use dynamic_annotation_contr.Controller.{Environment, Settings, State, attempt}
use dynamic_annotation_contr.Manager.Discovery.{QueryError}
use dynamic_annotation_contr.Controller.Actions.{TaskTests, first_failure, execute_groups}

module _ {W E S L C F : Type 0} (env : Environment W E S L C F) (settings : Settings)
    (tests : TaskTests E F) where
  groups_succeed :
      (results : List (GroupResult E))
      → first_failure {F = F} results ≡ none
      → All (λ r. (r.success ≡ true) ⊎ (r.error ≡ no_error)) results
  unfolding first_failure
  groups_succeed [] h = tt
  groups_succeed (r ∷ rs) h = grind (arith, groups_succeed rs)

  -- If the execution of annotation groups ends without an error, the last attempt was answered, and
  -- each of its groups has succeeded or has left no error.
  execute_groups_lem :
      (operation : State W L → Option (QueryError F) × (List (GroupResult E) × State W L))
      (s : State W L)
      → (execute_groups env settings tests operation s).0 ≡ none
      → let (failure, (results, s')) =
          attempt env tests.on_query settings.error_handler operation [] s in
        (failure ≡ none) × All (λ r. (r.success ≡ true) ⊎ (r.error ≡ no_error)) results
  unfolding execute_groups
  execute_groups_lem operation s h =
      grind (
        arith,
        groups_succeed (attempt env tests.on_query settings.error_handler operation [] s).1.0,
      )
