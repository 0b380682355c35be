-- ===== src/Approvals/Once.antt =====
-- A command is carried out once, and one that raises leaves only its record.
use feishu_shadow_agent.Prelude.{
  ◌∙◌, sym, ap, text_same, ℕ, Bool, true, false, Option, none, some, List, ◌≡◌, refl, find?,
  find?-append, find?-append_new,
}
use feishu_shadow_agent.Approvals.{
  CommandError, CommandStatus, returns, error_result, raised, Handled, CommandRow, ApprovalCommand,
  ApprovalDb, CommandResult, Env,
}
use feishu_shadow_agent.Approvals.Feedback.{expire_stale, stale_answer}
use feishu_shadow_agent.Approvals.Cases.{Endings, Returned}
use feishu_shadow_agent.Approvals.Command.{
  command_row, record_command, expire_before_command, apply_approval_command,
  apply_approval_command_locked, settle, apply_once, command_with_id,
}
use feishu_shadow_agent.Approvals.Cases.Sends.{
  command-Endings, command-Endings, command-Endings, command-Endings, command-Endings,
  command-Endings, command-Endings, command-Endings, command-Endings,
}
use feishu_shadow_agent.Approvals.Steps.{
  steps-keep, fences, expires, answers, drafts-Drafted, drafts, run_steps, Step, run_step,
}

abbrev is_error : CommandResult → Bool
is_error (error_result e) = true
is_error _ = false

-- What every handler that returns keeps to.
abbrev Recordable : ApprovalDb → CommandResult × ApprovalDb → Type 0
Recordable db (result, db') = (db'.commands ≡ db.commands) × (is_error result ≡ false)

Recordable-endings :
    (env : Env) (c : ApprovalCommand) (now : ℕ) (db : ApprovalDb)
    → Endings env c now db (Recordable db)
unfolding stale_answer expire_stale
Recordable-endings env c now db = record {
  conflicts = λ n s ids id store q. (refl, refl);
  expires = λ r payload p s. (refl, refl);
  keeps = λ r i n row p q u. (refl, refl);
  ends = λ r o row p u. (refl, refl);
  approves = λ r i t payload id store o row v p q w f m u. (refl, refl);
  replaces = λ r i t payload id store o row v p q w f m u. (refl, refl);
  writes = λ s i t payload id store o row v w m u. (refl, refl);
}

-- The record that answers a command, in the tables where it stands.
abbrev Answered : ApprovalCommand → CommandResult → ApprovalDb → Type 0
Answered c result db =
    (row : CommandRow) × (find? (command_with_id c.message_id) db.commands ≡ some row)
    × (row.result ≡ result)

settle-Answered :
    (c : ApprovalCommand) (now : ℕ) (db : ApprovalDb) (x : Handled)
    → find? (command_with_id c.message_id) db.commands ≡ none
    → Returned (Recordable db) x
    → Answered c (settle c now db x).0.1 (settle c now db x).1
unfolding Returned
settle-Answered c now db (raised e written) n h = (
  _,
  find?-append_new (command_with_id c.message_id) db.commands _ n (text_same c.message_id),
  refl,
)
settle-Answered c now db (returns (result, db')) n (k, u) = (
  _,
  find?-append_new (command_with_id c.message_id) db'.commands _
      (ap (find? (command_with_id c.message_id)) k ∙ n) (text_same c.message_id),
  refl,
)

once-Answered :
    (env : Env) (c : ApprovalCommand) (now : ℕ) (db : ApprovalDb) (o : Option CommandRow)
    → find? (command_with_id c.message_id) db.commands ≡ o
    → Answered c (apply_once env c now db o).0.1 (apply_once env c now db o).1
once-Answered env c now db none h =
    settle-Answered c now db (apply_approval_command_locked env c now db) h
      (command-Endings env c now db (Recordable db) (Recordable-endings env c now db))
once-Answered env c now db (some row) h = (row, h, refl)

pub apply-Answered :
    (env : Env) (c : ApprovalCommand) (now : ℕ) (db : ApprovalDb)
    → Answered c (apply_approval_command env c now db).0.1 (apply_approval_command env c now db).1
unfolding apply_approval_command
apply-Answered env c now db = once-Answered env c now (expire_before_command c now db) _ refl

-- the records that a command adds to those before it
settle-keeps :
    (c d : ApprovalCommand) (result : CommandResult) (now : ℕ) (db : ApprovalDb) (x : Handled)
    → Answered c result db
    → Returned (Recordable db) x
    → Answered c result (settle d now db x).1
unfolding Returned
settle-keeps c d result now db (raised e written) (row, h, s) k =
    (row, find?-append (command_with_id c.message_id) db.commands _ row h, s)
settle-keeps c d result now db (returns (r, db')) (row, h, s) (k, u) = (
  row,
  find?-append (command_with_id c.message_id) db'.commands _ row
      (ap (find? (command_with_id c.message_id)) k ∙ h),
  s,
)

once-keeps :
    (env : Env) (c d : ApprovalCommand) (result : CommandResult) (now : ℕ) (db : ApprovalDb)
    (o : Option CommandRow)
    → Answered c result db
    → Answered c result (apply_once env d now db o).1
once-keeps env c d result now db (some row) a = a
once-keeps env c d result now db none a =
    settle-keeps c d result now db (apply_approval_command_locked env d now db) a
      (command-Endings env d now db (Recordable db) (Recordable-endings env d now db))

step-keeps :
    (env : Env) (c : ApprovalCommand) (result : CommandResult) (s : Step) (db : ApprovalDb)
    → Answered c result db
    → Answered c result (run_step env s db)
unfolding run_step apply_approval_command expire_before_command
step-keeps env c result (drafts d now) db a =
    drafts-Drafted env d now db (Answered c result)
      (record { silent = λ s payload. a; notified = λ s payload n id store q. a }) a
step-keeps env c result (answers d now) db a =
    once-keeps env c d result now (expire_before_command d now db) _ a
step-keeps env c result (expires now exclude) db a = a
step-keeps env c result (fences m current reason now) db a = a

repeated :
    (env : Env) (c : ApprovalCommand) (result : CommandResult) (later : ℕ) (db : ApprovalDb)
    → Answered c result db
    → apply_approval_command env c later db
      ≡ ((CommandStatus.duplicate, result), expire_before_command c later db)
unfolding apply_approval_command expire_before_command
repeated env c result later db (row, h, s) =
    ap (apply_once env c later (expire_before_command c later db)) h
    ∙ ap (λ r. ((CommandStatus.duplicate, r), expire_before_command c later db)) s

-- A command that comes again after any drafts, commands, expiries and fences is answered as a
-- duplicate with the result of the first time, and changes nothing: only approvals that are due
-- expire. The retention, which rewrites old results, is not among what may happen in between.
pub command_is_applied_once :
    (env : Env) (c : ApprovalCommand) (now later : ℕ) (between : List Step) (db : ApprovalDb)
    → let first = apply_approval_command env c now db in
      let since = run_steps env between first.1 in
      apply_approval_command env c later since
      ≡ ((CommandStatus.duplicate, first.0.1), expire_before_command c later since)
command_is_applied_once env c now later between db =
    let first = apply_approval_command env c now db in
    repeated env c first.0.1 later (run_steps env between first.1) (
      steps-keep (Answered c first.0.1) env (step-keeps env c first.0.1) between first.1
        (apply-Answered env c now db))

settle-rolls_back :
    (c : ApprovalCommand) (now : ℕ) (db : ApprovalDb) (x : Handled) (e : CommandError)
    → Returned (Recordable db) x
    → (settle c now db x).0.1 ≡ error_result e
    → settle c now db x ≡ (
      (CommandStatus.failed, error_result e),
      record_command (command_row c CommandStatus.failed (error_result e) now) db,
    )
unfolding Returned
settle-rolls_back c now db (raised x written) e k h =
    ap
      (λ r.
        ((CommandStatus.failed, r), record_command (command_row c CommandStatus.failed r now) db))
      h
settle-rolls_back c now db (returns (r, d)) e (k, u) h =
    let wrong : true ≡ false = sym (ap is_error h) ∙ u in cc

-- A command that is new and whose handler raises, whatever tables it wrote before the raise, changes
-- nothing but the list of commands, where it stands as failed with its error: the tables are those of
-- the savepoint, in which only approvals that were due have expired.
pub raised_is_rolled_back :
    (env : Env) (c : ApprovalCommand) (now : ℕ) (db : ApprovalDb) (e : CommandError)
    → let expired = expire_before_command c now db in
      find? (command_with_id c.message_id) expired.commands ≡ none
      → (apply_approval_command env c now db).0.1 ≡ error_result e
      → apply_approval_command env c now db ≡ (
        (CommandStatus.failed, error_result e),
        record_command (command_row c CommandStatus.failed (error_result e) now) expired,
      )
unfolding apply_approval_command
raised_is_rolled_back env c now db e fresh h =
    let expired = expire_before_command c now db in
    let once = ap (apply_once env c now expired) fresh in
    once
    ∙ settle-rolls_back c now expired (apply_approval_command_locked env c now expired) e
        (command-Endings env c now expired (Recordable expired)
          (Recordable-endings env c now expired))
        (sym (ap (λ x. x.0.1) once) ∙ h)
