-- ===== src/Orchestrator/Execute/Answers.antt =====
-- Runs of `executeTasks` in which the workers and the queries for splits answer as they are told to.
use victoriametrics_data_mig.Prelude.{ℕ, ◌≡◌, List}
use victoriametrics_data_mig.Types.{Task}
use victoriametrics_data_mig.Splitter.Selector.{SelectorInfo}
use victoriametrics_data_mig.Orchestrator.Execute.{Exec, Flight, Outcome, Step, Run}

-- `answer` says how a task in flight ends and `plan` into which selectors a failed task is split, in
-- the state that is given.
module _ (max_retries : ℕ) (answer : Exec → Flight → Outcome)
    (plan : Exec → Task → List SelectorInfo) where
  abbrev pub AnswersStep : {s t : Exec} → Step max_retries s t → Type 0
  AnswersStep (Step.turns env pc) = Unit
  AnswersStep {s} (Step.ends f outcome front back e) = outcome ≡ answer s f
  AnswersStep {s} (Step.takes env found r front back pc more e) = found ≡ plan s

  abbrev pub Answers : {s t : Exec} → Run max_retries s t → Type 0
  Answers Run.here = Unit
  Answers (Run.next run st) = Answers run × AnswersStep st
