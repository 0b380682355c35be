-- ===== src/Tests/Closing.antt =====
-- A task that the operator closes and opens again, with the reply that waited in it.
use feishu_shadow_agent.Prelude.{true, Option, none, some, [], ◌∷◌, refl, update_where, count_where}
use feishu_shadow_agent.Types.{instant, watching, closed_by_owner}
use feishu_shadow_agent.Tasks.{TaskDb}
use feishu_shadow_agent.Tasks.Closing.{
  Changed, IsQuiet, close_task_by_operator, reopen_task_by_operator, reopened-IsQuiet,
}
use feishu_shadow_agent.Tests.Routing.{tables, watched}

abbrev start : TaskDb
start = tables (watched ∷ [])

abbrev tables_of : Option (Changed × TaskDb) → TaskDb
tables_of none = start
tables_of (some (c, db)) = db

abbrev closed : TaskDb
closed = tables_of (close_task_by_operator 3 30 start)

abbrev opened : TaskDb
opened = tables_of (reopen_task_by_operator 3 (instant 900) 40 closed)

-- one reply is cancelled
abbrev closing : Changed
closing = record {
  changed = true;
  previous_status = watching;
  expired_approvals = 0;
  cancelled_actions = 1;
}

abbrev reopening : Changed
reopening = record {
  changed = true;
  previous_status = closed_by_owner;
  expired_approvals = 0;
  cancelled_actions = 0;
}

reopened-IsQuiet_example : IsQuiet 3 opened
unfolding close_task_by_operator reopen_task_by_operator count_where update_where
reopened-IsQuiet_example =
    reopened-IsQuiet 3 30 40 (instant 900) start closed opened closing reopening refl refl refl
