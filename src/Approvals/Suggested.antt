-- ===== src/Approvals/Suggested.antt =====
-- What /send records as the reply that was suggested.
use feishu_shadow_agent.Prelude.{
  nat_eq, if◌then◌else◌, ℕ, String, Bool, true, false, Option, some, none, List, [], ◌∷◌, ◌++◌, ◌≡◌,
  ◌==◌, refl, find?, update_where, sym, ap, ◌∙◌, string_eq,
}
use feishu_shadow_agent.Tasks.{TaskRow}
use feishu_shadow_agent.Store.{ApprovalRow, Db, payload_send_text, source_payload_is_stale}
use feishu_shadow_agent.Approvals.{
  or_raise, CommandError, text_or, returns, answered_result, ApprovalCommand, ApprovalDb,
  CommandResult, Env, FeedbackRow,
}
use feishu_shadow_agent.Approvals.Cases.{
  reply_of, Returned, returned, either, bound, recorded, action_made, by_return,
}
use feishu_shadow_agent.Types.{ApprovalOutcome}
use feishu_shadow_agent.Approvals.Send.{
  approved_with, payload_for, reply_text, send_approved, send_for_approval,
}
use feishu_shadow_agent.Approvals.Feedback.{
  set_approval, stale_answer, payload_to_replace, approval_with_id,
}
use feishu_shadow_agent.Approvals.Resolve.{create_action}
use feishu_shadow_agent.Json.{Fields}
use feishu_shadow_agent.Store.Create.{created, create_checked}
use feishu_shadow_agent.Store.Queued.{create-same}

module _ (i : ℕ) (f : ApprovalRow → ApprovalRow) (o : Option String)
    (h : (a : ApprovalRow) → ((f a).id ≡ a.id) × ((f a).preview ≡ o)) where
  found-first :
      (x : ApprovalRow) (rest : List ApprovalRow) (r : ApprovalRow) (b : Bool)
      → (x.id == i) ≡ b
      → find? (approval_with_id i) ((if b then f x else x) ∷ rest) ≡ some r
      → (find? (approval_with_id i) rest ≡ some r → r.preview ≡ o)
      → r.preview ≡ o
  found-first x rest r true t e later =
      let hit : ((f x).id == i) ≡ true = ap (λ j. j == i) (h x).0 ∙ t in
      let first =
        ap (λ b. if b then some (f x) else find? (approval_with_id i) rest) (sym hit) ∙ e in
      let it : f x ≡ r = cc in ap (λ (a : ApprovalRow). a.preview) (sym it) ∙ (h x).1
  found-first x rest r false t e later =
      later (ap (λ b. if b then some x else find? (approval_with_id i) rest) (sym t) ∙ e)

  -- the row that an UPDATE by id wrote
  found-updated :
      (rows : List ApprovalRow) (r : ApprovalRow)
      → find? (approval_with_id i) (update_where (approval_with_id i) f rows) ≡ some r
      → r.preview ≡ o
  unfolding update_where
  found-updated [] r e = cc
  found-updated (x ∷ xs) r e =
      found-first x (update_where (approval_with_id i) f xs) r (x.id == i) refl e
        (found-updated xs r)

or_raise-returns :
    (o : Option ApprovalRow) (e : CommandError) (d : ApprovalDb) (a : ApprovalRow)
    → or_raise o e d ≡ returns a
    → o ≡ some a
or_raise-returns none e d a h = cc
or_raise-returns (some x) e d a h = let same : x ≡ a = cc in ap some same

-- The feedback that was added records this suggestion.
abbrev pub Suggests : ApprovalDb → Option String → ApprovalDb → Type 0
Suggests db suggestion db' =
    (row : FeedbackRow) × (db'.feedback ≡ db.feedback ++ row ∷ [])
    × (row.suggested_reply ≡ suggestion)

abbrev IfReplied : ApprovalDb → Option String → CommandResult × ApprovalDb → Type 0
IfReplied db suggestion (answered_result s task_id action_id outcome, db') =
    Suggests db suggestion db'
IfReplied db suggestion x = Unit

-- the preview that is read back after the action was made
written :
    (env : Env) (r : ApprovalRow) (c : ApprovalCommand) (payload : Fields) (task_id now : ℕ)
    (db : ApprovalDb) (target : String) (id : ℕ) (store : Db) (a : ApprovalRow)
    → let approved = set_approval r.id (approved_with payload (reply_text c) now) db in
      create_checked approved.tasks.store now (reply_of env c task_id target payload r.id approved)
        ≡ (created id, store)
      → find? (approval_with_id r.id) store.approvals ≡ some a
      → a.preview ≡ some (reply_text c)
written env r c payload task_id now db target id store a made read =
    let approved = set_approval r.id (approved_with payload (reply_text c) now) db in
    let same =
      ap (λ x. x.1.approvals) (sym made)
      ∙ create-same approved.tasks.store now
          (reply_of env c task_id target payload r.id approved) in
    found-updated r.id (approved_with payload (reply_text c) now) (some (reply_text c))
      (λ x. (refl, refl)) db.tasks.store.approvals a
      (ap (find? (approval_with_id r.id)) (sym same) ∙ read)

replace-Suggests :
    (env : Env) (c : ApprovalCommand) (r : ApprovalRow) (t : TaskRow) (now : ℕ) (db : ApprovalDb)
    → payload_send_text (payload_to_replace r) ≡ ""
    → Returned (IfReplied db (some (reply_text c))) (send_for_approval env c r t now db)
unfolding send_for_approval send_approved create_action stale_answer
replace-Suggests env c r t now db empty =
    let P = IfReplied db (some (reply_text c)) in
    either P (source_payload_is_stale db.tasks.store (payload_to_replace r)) _ _
      (λ stale. by_return P _ tt)
      (λ current. bound P _ _ (λ target _. action_made P _ _ _ (λ id store made.
        bound P _ _ (λ a read. recorded P _ _ _ (λ u. (
          _,
          refl,
          ap (λ s. text_or s a.preview) empty
              ∙ written env r c (payload_for db r t.task.id target (reply_text c)) t.task.id now db
                  target id store a made (or_raise-returns _ _ _ a read),
        ))))))

-- Where the approval has no text of its own, /send records the owner's text as the suggestion too, and
-- not the preview of the approval, which it wrote over before.
pub sent_over_preview :
    (env : Env) (c : ApprovalCommand) (r : ApprovalRow) (t : TaskRow) (now : ℕ)
    (db db' : ApprovalDb) (short_id : String) (task_id action_id : Option ℕ)
    (outcome : ApprovalOutcome)
    → payload_send_text (payload_to_replace r) ≡ ""
    → send_for_approval env c r t now db
      ≡ returns (answered_result short_id task_id action_id outcome, db')
    → Suggests db (some (reply_text c)) db'
sent_over_preview env c r t now db db' short_id task_id action_id outcome empty h =
    returned (IfReplied db (some (reply_text c))) _
      (answered_result short_id task_id action_id outcome, db')
      (replace-Suggests env c r t now db empty) h
