-- ===== src/Tests/Retries.antt =====
-- A retry that is asked for twice, claimed and finished.
use feishu_shadow_agent.Prelude.{none, some, List, [], ◌∷◌, refl}
use feishu_shadow_agent.Types.{task_session, MessageProcessingStatus}
use feishu_shadow_agent.Tasks.{TaskDb}
use feishu_shadow_agent.Tasks.Retries.{RetryDb, RetryRequest, fail}
use feishu_shadow_agent.Tasks.Retries.Single.{
  single_open, RetryStep, request, claim, finish, run_steps, IsSingle, run_steps-IsSingle,
}
use feishu_shadow_agent.Tests.Routing.{tables}

abbrev asked : RetryRequest
asked = record { message_id = "om_source"; stage = task_session; actor = "owner"; reason = none }

abbrev failed_before : TaskDb
failed_before = record (tables []) {
  processing =
      record {
        message_id = "om_source";
        revision = 1;
        task_id = none;
        stage = task_session;
        status = MessageProcessingStatus.processing_failed_terminal;
        attempt_count = 3;
        last_error = some "timeout";
        terminal_reason = none;
        created_at = 1;
        updated_at = 1;
      }
      ∷ [];
}

abbrev queue : RetryDb
queue = record { tables = failed_before; retries = []; next_retry_id = 1 }

abbrev steps : List RetryStep
steps =
    request asked 10
    ∷ request asked 11
    ∷ claim "token" 12
    ∷ finish 1 "token" fail none 13
    ∷ request asked 14
    ∷ []

run_steps-IsSingle_example : IsSingle (run_steps steps queue)
unfolding single_open
run_steps-IsSingle_example = run_steps-IsSingle steps queue refl
