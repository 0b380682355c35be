-- ===== src/Store/Lifecycle/Creating.antt =====
-- What the creation of replies and notifications does to the statuses of actions.
use feishu_shadow_agent.Prelude.{
  ℕ, ◌==◌, nat_eq, string_eq, any, ◌&&◌, ◌||◌, Option, none, some, [], ◌∷◌, refl, arith, find?,
}
use feishu_shadow_agent.Types.{is_send_reply, is_failed, ActionRecord}
use feishu_shadow_agent.Store.{Db}
use feishu_shadow_agent.Store.Create
use feishu_shadow_agent.Store.Create.{
  new_row, has_sent_send_reply_action, NewReply, Created, nothing, create_checked, revive, revived,
  insert_conflict, insert_reply, create_failed, find_failed_send_reply_action, reply_key_of_new,
}
use feishu_shadow_agent.Store.Notify
use feishu_shadow_agent.Store.Notify.{existing_notice, revive_notice, NewNotice, queue_notice}
use feishu_shadow_agent.Store.Index.{violates_index, has_active_send_reply_action}
use feishu_shadow_agent.Store.Moves.{Moves-append}
use feishu_shadow_agent.Store.Lifecycle.{automatic}
use feishu_shadow_agent.Store.Lifecycle.Rules.{
  Ends, Ends-if, Ends-stay, Ends-update, automatic_refl, update-Moves,
}

revive-Ends :
    (db : Db) (now : ℕ) (n : NewReply) (row : ActionRecord)
    → Ends automatic db.actions (revive db now n row)
unfolding revive
revive-Ends db now n row =
    Ends-if (has_active_send_reply_action (reply_key_of_new n) row.id db.actions) refl
      (Ends-stay db nothing)
      (Ends-if (violates_index (revived n now row) db.actions) refl
        (Ends-stay db Create.integrity_error)
        (Ends-update db (Create.created row.id) (
          update-Moves automatic (Create.failed_at row.id) (revived n now) db.actions (λ r. refl)
            (λ r. refl) (λ r. refl) (λ r. ground arith))))

insert_conflict-Ends :
    (db : Db) (now : ℕ) (n : NewReply) (row : Option ActionRecord)
    → Ends automatic db.actions (insert_conflict db now n row)
unfolding insert_conflict
insert_conflict-Ends db now n none = Ends-stay db nothing
insert_conflict-Ends db now n (some row) =
    Ends-if (is_failed row.status) refl (revive-Ends db now n row) (Ends-stay db nothing)

insert_reply-Ends :
    (db : Db) (now : ℕ) (n : NewReply) → Ends automatic db.actions (insert_reply db now n)
unfolding insert_reply
insert_reply-Ends db now n =
    let row = new_row n db.next_action_id now in
    Ends-if (any (Create.key_taken n.idempotency_key) db.actions || violates_index row db.actions)
      refl
      (insert_conflict-Ends db now n (
        find? (λ (r : ActionRecord). Create.key_taken n.idempotency_key r && is_send_reply r.kind)
          db.actions))
      (record { moves = Moves-append automatic automatic_refl db.actions (row ∷ []) })

create_failed-Ends :
    (db : Db) (now : ℕ) (n : NewReply) (row : Option ActionRecord)
    → Ends automatic db.actions (create_failed db now n row)
unfolding create_failed
create_failed-Ends db now n (some row) = revive-Ends db now n row
create_failed-Ends db now n none =
    Ends-if (has_active_send_reply_action (reply_key_of_new n) 0 db.actions) refl
      (Ends-stay db nothing) (insert_reply-Ends db now n)

pub create-Ends :
    (db : Db) (now : ℕ) (n : NewReply) → Ends automatic db.actions (create_checked db now n)
unfolding create_checked
create-Ends db now n =
    Ends-if (has_sent_send_reply_action n.wanted db.actions) refl (Ends-stay db nothing) (
      create_failed-Ends db now n
        (find_failed_send_reply_action n.wanted n.execution_mode db.actions))

existing_notice-Ends :
    (db : Db) (now : ℕ) (n : NewNotice) (row : Option ActionRecord)
    → Ends automatic db.actions (existing_notice db now n row)
unfolding existing_notice
existing_notice-Ends db now n none = Ends-stay db none
existing_notice-Ends db now n (some row) =
    Ends-if (is_failed row.status) refl
      (Ends-update db (some row.id) (
        update-Moves automatic (Notify.failed_at row.id) (revive_notice n now) db.actions
          (λ r. refl) (λ r. refl) (λ r. refl) (λ r. ground arith)))
      (Ends-stay db (some row.id))

pub queue_notice-Ends :
    (db : Db) (now : ℕ) (n : NewNotice) → Ends automatic db.actions (queue_notice db now n)
unfolding queue_notice
queue_notice-Ends db now n =
    Ends-if (any (λ (r : ActionRecord). r.idempotency_key == n.idempotency_key) db.actions) refl
      (existing_notice-Ends db now n (find? (Notify.notice_with_key n.idempotency_key) db.actions))
      (record {
        moves =
            Moves-append automatic automatic_refl db.actions
              (Notify.notice_row n db.next_action_id now ∷ []);
      })
