-- ===== src/Approvals/Steps.antt =====
-- What happens to approvals, as one type of steps: drafts that ask for one, the owner's commands, the
-- expiry by time, and the fence of an edited source.
use feishu_shadow_agent.Prelude.{find?, refl, none, some, ◌≡◌, ℕ, String, Option, List, [], ◌∷◌}
use feishu_shadow_agent.Json.{Fields}
use feishu_shadow_agent.Types.{ExecutionMode}
use feishu_shadow_agent.Approvals.{
  Handled, CommandRow, some, returns, raised, with_store, Attempt, ApprovalCommand, ApprovalDb, Env,
}
use feishu_shadow_agent.Approvals.Create.{
  approval_notice, notified, expiry, new_approval, add_approval, notify_owner,
  create_send_reply_approval,
}
use feishu_shadow_agent.Approvals.Command.{
  command_with_id, apply_once, settle, record_command, expire_before_command,
  apply_approval_command,
}
use feishu_shadow_agent.Store.Fence.{
  invalidate_stale_revision_side_effects, expire_pending_approvals,
}
use feishu_shadow_agent.Store.{bind_payload, Db, ApprovalRow}
use feishu_shadow_agent.Approvals.Cases.{returned, Endings, bound, Returned}
use feishu_shadow_agent.Store.Notify.{queue_notice, NewNotice}
use feishu_shadow_agent.Approvals.Cases.Sends.{command-Endings}

pub record Draft : Type 0 where
  pub task_id : ℕ
  pub preview : String
  pub payload : Fields
  pub notify_payload : Option Fields
  pub approval_timeout_hours : Option ℕ
  pub execution_mode : ExecutionMode

pub data Step : Type 0 where
  drafts : Draft → ℕ → Step
  answers : ApprovalCommand → ℕ → Step
  expires : ℕ → Option ℕ → Step
  fences : String → ℕ → String → ℕ → Step

-- the tables of a creation; where it raised, its transaction is undone, whatever it wrote
abbrev pub created_or_kept : ApprovalDb → Attempt (ℕ × ApprovalDb) → ApprovalDb
created_or_kept db (raised e written) = db
created_or_kept db (returns x) = x.1

unfoldable pub run_step : Env → Step → ApprovalDb → ApprovalDb
unfolding create_send_reply_approval apply_approval_command
run_step env (drafts d now) db = created_or_kept db (
    create_send_reply_approval env d.task_id d.preview d.payload d.notify_payload
      d.approval_timeout_hours d.execution_mode now db)
run_step env (answers c now) db = (apply_approval_command env c now db).1
run_step env (expires now exclude) db =
    with_store db (expire_pending_approvals db.tasks.store now exclude).1
run_step env (fences m current reason now) db =
    with_store db (invalidate_stale_revision_side_effects db.tasks.store m current reason now).1

unfoldable pub run_steps : Env → List Step → ApprovalDb → ApprovalDb
unfolding run_step
run_steps env [] db = db
run_steps env (s ∷ ss) db = run_steps env ss (run_step env s db)

abbrev pub draft_row : ℕ → String → Draft → Fields → ℕ → ApprovalRow
draft_row id short_id d payload now =
    new_approval id short_id d.task_id payload d.preview now (expiry now d.approval_timeout_hours)

-- The ways in which a draft ends that does not raise.
pub record Drafted {κ} (env : Env) (d : Draft) (now : ℕ) (db : ApprovalDb) (P : ApprovalDb → Type κ)
    : Type κ where
  pub silent :
      (short_id : String) (payload : Fields)
      → P (add_approval (draft_row db.next_approval_id short_id d payload now) db)
  pub notified :
      (short_id : String) (payload : Fields) (n : NewNotice) (id : ℕ) (store : Db)
      → let added = add_approval (draft_row db.next_approval_id short_id d payload now) db in
        queue_notice added.tasks.store now n ≡ (some id, store) → P (with_store added store)

pub drafts-Drafted {κ} :
    (env : Env) (d : Draft) (now : ℕ) (db : ApprovalDb) (P : ApprovalDb → Type κ)
    → Drafted env d now db P
    → P db
    → P (run_step env (drafts d now) db)
unfolding run_step create_send_reply_approval notify_owner Returned
drafts-Drafted env d now db P e same =
    of_created _ (bound (λ x. P x.1) _ _ (λ short_id _. told short_id d.notify_payload))
  where
    of_created : (x : Attempt (ℕ × ApprovalDb)) → Returned (λ y. P y.1) x → P (created_or_kept db x)
    of_created (raised e d) h = same
    of_created (returns x) h = h

    queued :
        (short_id : String) (n : NewNotice) (x : Option ℕ × Db)
        → let row =
            draft_row db.next_approval_id short_id d
              (bind_payload db.tasks.store d.task_id d.payload)
              now in
          queue_notice (add_approval row db).tasks.store now n ≡ x
          → Returned (λ y. P y.1) (notified row (add_approval row db) x)
    queued short_id n (none, store) h = tt
    queued short_id n (some id, store) h = e.notified short_id _ n id store h

    told :
        (short_id : String) (notify_payload : Option Fields)
        → let row =
            draft_row db.next_approval_id short_id d
              (bind_payload db.tasks.store d.task_id d.payload)
              now in
          Returned
            (λ y. P y.1)
            (notify_owner env d.task_id row notify_payload d.execution_mode now
              (add_approval row db))
    told short_id none = e.silent short_id _
    told short_id (some notify_payload) =
        queued short_id
          (approval_notice env d.task_id
            (draft_row db.next_approval_id short_id d
              (bind_payload db.tasks.store d.task_id d.payload) now)
            notify_payload d.execution_mode)
          _ refl

-- A command: what holds after the expiry, survives the record and holds at the ends of the handlers.
pub answers-keeps {κ} :
    (P : ApprovalDb → Type κ) (env : Env) (c : ApprovalCommand) (now : ℕ) (db : ApprovalDb)
    → P (expire_before_command c now db)
    → ((row : CommandRow) (d : ApprovalDb) → P d → P (record_command row d))
    → Endings env c now (expire_before_command c now db) (λ x. P x.1)
    → P (run_step env (answers c now) db)
unfolding run_step apply_approval_command
answers-keeps P env c now db before recorded e =
    once (find? (command_with_id c.message_id) (expire_before_command c now db).commands)
  where
    settled :
        (x : Handled)
        → Returned (λ y. P y.1) x
        → P (settle c now (expire_before_command c now db) x).1
    settled (raised x d) h = recorded _ _ before
    settled (returns (result, d)) h = recorded _ _ (returned (λ y. P y.1) _ (result, d) h refl)

    once : (o : Option CommandRow) → P (apply_once env c now (expire_before_command c now db) o).1
    once (some row) = before
    once none = settled _ (command-Endings env c now _ (λ y. P y.1) e)

pub steps-keep {κ} :
    (P : ApprovalDb → Type κ) (env : Env)
    → ((s : Step) (d : ApprovalDb) → P d → P (run_step env s d))
    → (ss : List Step) (db : ApprovalDb) → P db
    → P (run_steps env ss db)
unfolding run_steps
steps-keep P env h [] db p = p
steps-keep P env h (s ∷ ss) db p = steps-keep P env h ss (run_step env s db) (h s db p)
