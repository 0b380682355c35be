-- ===== src/Store/Queued.antt =====
-- What the creation of a reply or a notification leaves: the tables beside the actions as they were,
-- and the pending action whose id it gives.
use feishu_shadow_agent.Prelude.{
  option_nat_iff, nat_eq, string_eq, option_eq, find?-sorted, filter, suc, sort_by, any-append_last,
  if◌then◌else◌, any-update_where, ℕ, Bool, true, false, ◌&&◌, ◌≡◌, refl, arith, Option, none, some,
  [], ◌∷◌, ◌++◌, ◌==◌, any, find?, if-holds, ◌||◌, Among, find?-Among, update_where,
}
use feishu_shadow_agent.Types.{ActionRecord, is_pending, is_send_reply, is_failed}
use feishu_shadow_agent.Store.{payload_send_text, Db}
use feishu_shadow_agent.Store.Create.{
  reply_key_of_new, has_sent_send_reply_action, is_failed_reply_row, failed_order, new_row, revived,
  key_taken, failed_at, find_failed_send_reply_action, Created, created, nothing, NewReply,
  create_checked, create_failed, insert_reply, insert_conflict, revive,
}
use feishu_shadow_agent.Store.Notify.{NewNotice, queue_notice, existing_notice}
use feishu_shadow_agent.Store.Index.{violates_index, has_active_send_reply_action}

-- A failed reply in the table.
abbrev pub IsFailedReply : Db → ActionRecord → Type 0
IsFailedReply db row =
    Among row db.actions × (is_send_reply row.kind ≡ true) × (is_failed row.status ≡ true)

failed_found :
    (n : NewReply) (db : Db) (row : ActionRecord)
    → find_failed_send_reply_action n.wanted n.execution_mode db.actions ≡ some row
    → IsFailedReply db row
unfolding find_failed_send_reply_action
failed_found n db row h = go (n.wanted.text == "") h
  where
    go :
        (b : Bool)
        → (if b
            then none
            else find?
                (λ (r : ActionRecord). payload_send_text r.payload == n.wanted.text)
                (sort_by failed_order
                  (filter (is_failed_reply_row n.wanted n.execution_mode) db.actions)))
          ≡ some row
        → IsFailedReply db row
    go true h = cc
    go false h =
        let (p, m) =
          find?-sorted (is_failed_reply_row n.wanted n.execution_mode) _ failed_order db.actions row
            h in
        (m, ground arith, ground arith)

-- The ways in which the creation of a reply ends.
pub record Makes {κ} (db : Db) (now : ℕ) (n : NewReply) (P : Created × Db → Type κ) : Type κ where
  pub refuses : P (nothing, db)
  pub raises : P (Created.integrity_error, db)
  pub revives :
      (row : ActionRecord)
      → IsFailedReply db row
      → P (
        created row.id,
        record db { actions = update_where (failed_at row.id) (revived n now) db.actions },
      )
  pub inserts : P (
    created db.next_action_id,
    record db {
      actions = db.actions ++ new_row n db.next_action_id now ∷ [];
      next_action_id = suc db.next_action_id;
    },
  )

module _ {κ} (db : Db) (now : ℕ) (n : NewReply) (P : Created × Db → Type κ)
    (e : Makes db now n P) where
  revive-Makes : (row : ActionRecord) → IsFailedReply db row → P (revive db now n row)
  unfolding revive
  revive-Makes row f =
      if-holds P (has_active_send_reply_action (reply_key_of_new n) row.id db.actions) _ _
        (λ active. e.refuses)
        (λ free.
          if-holds P (violates_index (revived n now row) db.actions) _ _ (λ violated. e.raises)
            (λ ok. e.revives row f))

  conflict-Makes :
      (o : Option ActionRecord)
      → find?
          (λ (r : ActionRecord). key_taken n.idempotency_key r && is_send_reply r.kind)
          db.actions
        ≡ o
      → P (insert_conflict db now n o)
  unfolding insert_conflict
  conflict-Makes none h = e.refuses
  conflict-Makes (some row) h =
      let (p, m) = find?-Among _ db.actions row h in
      if-holds P (is_failed row.status) _ _ (λ failed. revive-Makes row (m, ground arith, failed))
        (λ other. e.refuses)

  failed-Makes :
      (o : Option ActionRecord)
      → find_failed_send_reply_action n.wanted n.execution_mode db.actions ≡ o
      → P (create_failed db now n o)
  unfolding create_failed insert_reply
  failed-Makes (some row) h = revive-Makes row (failed_found n db row h)
  failed-Makes none h =
      if-holds P (has_active_send_reply_action (reply_key_of_new n) 0 db.actions) _ _
        (λ active. e.refuses)
        (λ free.
          if-holds P
            (any (key_taken n.idempotency_key) db.actions
              || violates_index (new_row n db.next_action_id now) db.actions)
            _ _ (λ taken. conflict-Makes _ refl) (λ ok. e.inserts))

  pub create-Makes : P (create_checked db now n)
  unfolding create_checked
  create-Makes =
      if-holds P (has_sent_send_reply_action n.wanted db.actions) _ _ (λ sent. e.refuses)
        (λ unsent. failed-Makes _ refl)

-- Nothing but the actions changes.
pub create-same :
    (db : Db) (now : ℕ) (n : NewReply) → (create_checked db now n).1.approvals ≡ db.approvals
create-same db now n =
    create-Makes db now n (λ x. x.1.approvals ≡ db.approvals)
      (record { refuses = refl; raises = refl; revives = λ row f. refl; inserts = refl })

existing-same :
    (db : Db) (now : ℕ) (n : NewNotice) (o : Option ActionRecord)
    → (existing_notice db now n o).1.approvals ≡ db.approvals
unfolding existing_notice
existing-same db now n none = refl
existing-same db now n (some row) =
    if-holds (λ (x : Option ℕ × Db). x.1.approvals ≡ db.approvals) (is_failed row.status) _ _
      (λ failed. refl) (λ other. refl)

pub queue_notice-same :
    (db : Db) (now : ℕ) (n : NewNotice) → (queue_notice db now n).1.approvals ≡ db.approvals
unfolding queue_notice
queue_notice-same db now n =
    if-holds (λ (x : Option ℕ × Db). x.1.approvals ≡ db.approvals)
      (any (λ (r : ActionRecord). r.idempotency_key == n.idempotency_key) db.actions) _ _
      (λ taken. existing-same db now n _) (λ free. refl)

-- A pending reply with this id, for what was asked.
abbrev pub queued : NewReply → ℕ → ActionRecord → Bool
queued n id r =
    r.id == id
    && (is_send_reply r.kind
        && (is_pending r.status
            && (r.task_id == some n.wanted.task_id && r.approval_id == n.approval_id)))

abbrev pub Queues : NewReply → Created × Db → Type 0
Queues n (created id, db) = any (queued n id) db.actions ≡ true
Queues n (nothing, db) = Unit
Queues n (Created.integrity_error, db) = Unit

option_same : (o : Option ℕ) → (o == o) ≡ true
option_same o = (option_nat_iff o o).1 refl

-- The id that the creation of a reply gives is that of a pending reply for the task and the approval.
pub create-Queues : (db : Db) (now : ℕ) (n : NewReply) → Queues n (create_checked db now n)
create-Queues db now n = create-Makes db now n (Queues n) (record {
  refuses = tt;
  raises = tt;
  revives = λ row f.
      any-update_where (queued n row.id) (failed_at row.id) (revived n now) db.actions row f.0
        (ground arith) (let same = option_same n.approval_id in ground arith);
  inserts =
      any-append_last (queued n db.next_action_id) db.actions (new_row n db.next_action_id now)
        (let same = option_same n.approval_id in ground arith);
})
