-- ===== src/Store/Lifecycle.antt =====
-- store/sqlite_store.py: the operations of the store on actions, as one type of steps, and the
-- diagram of an action's statuses that all of them follow.
pub mod Rules
pub mod Settling
pub mod Creating
pub mod Steps
pub mod Owner
pub mod Traces
use feishu_shadow_agent.Prelude.{ℕ, String, Bool, true, false, ◌&&◌, ◌||◌, not, Option, List}
use feishu_shadow_agent.Json.{Fields}
use feishu_shadow_agent.Types.{
  ActionStatus, pending, sending, sent, failed, failed_needs_review, cancelled,
}
use feishu_shadow_agent.Store.{Db, MessageRow, TaskMessageRow}
use feishu_shadow_agent.Store.Dispatch.{
  AttemptUpdate, claim_action_for_dispatch, update_dispatch_attempt, record_action_preview,
  finish_claimed_action,
}
use feishu_shadow_agent.Store.Recovery.{mark_stale_sending_actions}
use feishu_shadow_agent.Store.Operator.{
  db_after, retry_dispatch_action, cancel_dispatch_action, mark_action_sent_after_evidence,
}
use feishu_shadow_agent.Store.Create.{NewReply, create_checked}
use feishu_shadow_agent.Store.Notify.{NewNotice, queue_notice}
use feishu_shadow_agent.Store.Fence.{
  expire_pending_approvals, invalidate_stale_revision_side_effects,
}

-- The statuses with which the dispatcher finishes an action.
pub data Final : Type 0 where
  final_sent final_failed final_needs_review final_cancelled : Final

abbrev pub final_status : Final → ActionStatus
final_status final_sent = sent
final_status final_failed = failed
final_status final_needs_review = failed_needs_review
final_status final_cancelled = cancelled

-- What the running agent does by itself.
pub data Automatic : Type 0 where
  claim : ℕ → ℕ → Automatic
  update_attempt : ℕ → AttemptUpdate → ℕ → Automatic
  preview : ℕ → Fields → ℕ → Automatic
  finish : ℕ → ℕ → Final → Fields → ℕ → Automatic
  recover : ℕ → ℕ → Automatic
  create_reply : NewReply → ℕ → Automatic
  notify : NewNotice → ℕ → Automatic
  expire : ℕ → Option ℕ → Automatic
  fence : String → ℕ → String → ℕ → Automatic
  write_messages : List MessageRow → List TaskMessageRow → Automatic

-- What the owner does by hand, with the id of the action.
pub data Manual : Type 0 where
  retry : ℕ → ℕ → Manual
  cancel : ℕ → ℕ → Manual
  mark_sent : ℕ → String → Fields → Option Bool → ℕ → Manual

unfoldable pub run : Automatic → Db → Db
run (claim i now) db = (claim_action_for_dispatch db i now).1
run (update_attempt i u now) db = update_dispatch_attempt db i u now
run (preview i result now) db = record_action_preview db i result now
run (finish i attempt f result now) db =
    (finish_claimed_action db i attempt (final_status f) result now).1
run (recover seconds now) db = (mark_stale_sending_actions db seconds now).1
run (create_reply n now) db = (create_checked db now n).1
run (notify n now) db = (queue_notice db now n).1
run (expire now exclude) db = (expire_pending_approvals db now exclude).1
run (fence m current reason now) db =
    (invalidate_stale_revision_side_effects db m current reason now).1
run (write_messages messages task_messages) db = record db {
  messages = messages;
  task_messages = task_messages;
}

unfoldable pub run_manual : Manual → Db → Db
run_manual (retry i now) db = db_after db (retry_dispatch_action db i now)
run_manual (cancel i now) db = db_after db (cancel_dispatch_action db i now)
run_manual (mark_sent i m result inserted now) db =
    db_after db (mark_action_sent_after_evidence db i m result inserted now)

abbrev pub same : ActionStatus → ActionStatus → Bool
same pending pending = true
same sending sending = true
same sent sent = true
same failed failed = true
same failed_needs_review failed_needs_review = true
same cancelled cancelled = true
same _ _ = false

-- The edges that fencing and expiry take.
abbrev pub fenced : ActionStatus → ActionStatus → Bool
fenced pending cancelled = true
fenced failed cancelled = true
fenced sending failed_needs_review = true
fenced s t = same s t

-- The edges that recovery and fencing take.
abbrev pub settles : ActionStatus → ActionStatus → Bool
settles pending cancelled = true
settles failed cancelled = true
settles sending sent = true
settles sending failed_needs_review = true
settles s t = same s t

-- The edges of one automatic operation.
abbrev pub automatic : ActionStatus → ActionStatus → Bool
automatic pending sending = true
automatic pending cancelled = true
automatic sending sent = true
automatic sending failed = true
automatic sending failed_needs_review = true
automatic sending cancelled = true
automatic failed pending = true
automatic failed cancelled = true
automatic failed_needs_review sent = true
automatic s t = same s t

-- The edges of one operation of the owner.
abbrev pub manual : ActionStatus → ActionStatus → Bool
manual failed pending = true
manual failed_needs_review pending = true
manual sent cancelled = false
manual s cancelled = true
manual cancelled sent = false
manual s sent = true
manual s t = same s t
