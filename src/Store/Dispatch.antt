-- ===== src/Store/Dispatch.antt =====
-- store/sqlite_store.py: the operations by which the dispatcher claims an action, records its
-- attempt and closes it.
use feishu_shadow_agent.Prelude.{
  ℕ, suc, String, Bool, true, false, not, ◌&&◌, ◌||◌, Option, none, some, List, [], ◌∷◌, ◌++◌, ◌==◌,
  leb, ltb, filter, take, any, sort_by, update_where, if◌then◌else◌, nat_eq, string_eq, option_eq,
}
use feishu_shadow_agent.Json.{
  Json, Fields, arr, str, get_or_null, merge, put, Items, nil, to_list, nonempty_text,
}
use feishu_shadow_agent.Types.{
  ActionKind, ActionStatus, ActionRecord, DispatchAttemptStatus, DispatchErrorStage,
  DispatchAttemptRecord, is_pending, is_sending, is_sent, is_failed_needs_review, is_production,
  is_send_reply,
}
use feishu_shadow_agent.Store.{Db, find_action, is_current_source, latest_attempt}

abbrev pub same_kind : ActionKind → ActionKind → Bool
same_kind k l = if is_send_reply k then is_send_reply l else not (is_send_reply l)

abbrev pub kind_selected : Option ActionKind → ActionKind → Bool
kind_selected none k = true
kind_selected (some wanted) k = same_kind k wanted

abbrev mode_rank : ActionRecord → ℕ
mode_rank r = if is_production r.execution_mode then 0 else 1

abbrev dispatch_order : ActionRecord → ActionRecord → Bool
dispatch_order a b =
    ltb (mode_rank a) (mode_rank b)
    || (mode_rank a == mode_rank b
        && (ltb a.created_at b.created_at || (a.created_at == b.created_at && leb a.id b.id)))

-- list_dispatchable_actions
unfoldable pub list_dispatchable_actions : Db → ℕ → Option ActionKind → List ActionRecord
list_dispatchable_actions db limit kind = take limit (
    sort_by dispatch_order
      (filter (λ (r : ActionRecord). is_pending r.status && kind_selected kind r.kind) db.actions))

-- action_revision_is_current and revision_send_guard
unfoldable pub action_revision_is_current : Db → ActionRecord → Bool
action_revision_is_current db action =
    is_current_source db.messages action.source_message_id action.source_revision

pub record DispatchClaim : Type 0 where
  pub action : ActionRecord
  pub attempt : DispatchAttemptRecord

abbrev pub start_attempt : ℕ → ℕ → ℕ → DispatchAttemptRecord
start_attempt id action_id now = record {
  id = id;
  action_id = action_id;
  status = DispatchAttemptStatus.started;
  dry_run_result = none;
  send_result = none;
  readback_result = none;
  sent_message_id = none;
  error_stage = none;
  started_at = now;
  finished_at = none;
}

-- WHERE id = ? AND status = ?
abbrev pub at_status : ℕ → (ActionStatus → Bool) → ActionRecord → Bool
at_status i p r = r.id == i && p r.status

abbrev pub set_status : ActionStatus → ℕ → ActionRecord → ActionRecord
set_status status now r = record r { status = status; updated_at = now }

abbrev pub set_result : ActionStatus → Fields → ℕ → ActionRecord → ActionRecord
set_result status result now r = record r { status = status; result = result; updated_at = now }

abbrev claimed : DispatchAttemptRecord → Option ActionRecord → Option DispatchClaim
claimed attempt none = none
claimed attempt (some row) = some (record { action = row; attempt = attempt })

abbrev mark_sending : ℕ → ℕ → List ActionRecord → List ActionRecord
mark_sending action_id now rows =
    update_where (at_status action_id is_pending) (set_status ActionStatus.sending now) rows

-- claim_action_for_dispatch; the claim token is random and unique, and nothing reads it back.
unfoldable pub claim_action_for_dispatch : Db → ℕ → ℕ → Option DispatchClaim × Db
claim_action_for_dispatch db action_id now =
    if not (any (at_status action_id is_pending) db.actions) then (none, db) else (
      claimed (start_attempt db.next_attempt_id action_id now)
          (find_action action_id (mark_sending action_id now db.actions)),
      record db {
        actions = mark_sending action_id now db.actions;
        attempts = db.attempts ++ start_attempt db.next_attempt_id action_id now ∷ [];
        next_attempt_id = suc db.next_attempt_id;
      },
    )

-- The arguments of update_dispatch_attempt that are given.
pub record AttemptUpdate : Type 0 where
  pub status : DispatchAttemptStatus
  pub dry_run_result : Option Fields
  pub send_result : Option Fields
  pub readback_result : Option Fields
  pub sent_message_id : Option String
  pub error_stage : Option DispatchErrorStage
  pub finish : Bool

abbrev pub attempt_status : DispatchAttemptStatus → AttemptUpdate
attempt_status status = record {
  status = status;
  dry_run_result = none;
  send_result = none;
  readback_result = none;
  sent_message_id = none;
  error_stage = none;
  finish = false;
}

abbrev closes_attempt : DispatchAttemptStatus → Bool
closes_attempt DispatchAttemptStatus.readback_ok = true
closes_attempt DispatchAttemptStatus.failed = true
closes_attempt DispatchAttemptStatus.uncertain = true
closes_attempt _ = false

abbrev pub given_or {ℓ} : {A : Type ℓ} → Option A → Option A → Option A
given_or none old = old
given_or (some new) old = some new

abbrev pub assign : AttemptUpdate → ℕ → DispatchAttemptRecord → DispatchAttemptRecord
assign u now r = record r {
  status = u.status;
  dry_run_result = given_or u.dry_run_result r.dry_run_result;
  send_result = given_or u.send_result r.send_result;
  readback_result = given_or u.readback_result r.readback_result;
  sent_message_id = given_or u.sent_message_id r.sent_message_id;
  error_stage = given_or u.error_stage r.error_stage;
  finished_at = if u.finish || closes_attempt u.status then some now else r.finished_at;
}

-- update_dispatch_attempt, for an attempt that exists (else it raises KeyError)
unfoldable pub update_dispatch_attempt : Db → ℕ → AttemptUpdate → ℕ → Db
update_dispatch_attempt db attempt_id u now = record db {
  attempts =
      update_where (λ (r : DispatchAttemptRecord). r.id == attempt_id) (assign u now) db.attempts;
}

-- record_action_preview
unfoldable pub record_action_preview : Db → ℕ → Fields → ℕ → Db
record_action_preview db action_id result now = record db {
  actions =
      update_where (at_status action_id is_pending) (set_result ActionStatus.pending result now)
        db.actions;
}

-- list(dict.fromkeys([*a, *b])) of JSON texts, and of other items as they stand
abbrev same_text : Json → Json → Bool
same_text (str s) (str t) = s == t
same_text _ _ = false

drop_same : Json → List Json → List Json
drop_same v [] = []
drop_same v (x ∷ xs) = let rest = drop_same v xs in if same_text x v then rest else x ∷ rest

from_keys : List Json → List Json
unfolding drop_same
from_keys [] = []
from_keys (x ∷ xs) = x ∷ drop_same x (from_keys xs)

abbrev items_of : Json → List Json
items_of (arr xs) = to_list xs
items_of _ = []

abbrev of_list : List Json → Items
of_list [] = nil
of_list (x ∷ xs) = Items.cons x (of_list xs)

abbrev pub with_warnings : List Json → Fields → Fields
with_warnings [] d = d
with_warnings (x ∷ xs) d = put "warnings" (arr (of_list (x ∷ xs))) d

-- the merged result of a fenced action whose send did complete
unfoldable pub merged_result : Fields → Fields → Fields
unfolding from_keys
merged_result existing result =
    with_warnings
      (from_keys
        (items_of (get_or_null "warnings" existing) ++ items_of (get_or_null "warnings" result)))
      (merge existing result)

-- latest["sent_message_id"] is set and the result carries the same one
abbrev pub same_sent_message : Option String → Fields → Bool
same_sent_message none result = false
same_sent_message (some m) result =
    not (m == "") && nonempty_text (get_or_null "sent_message_id" result) == some m

abbrev pub written :
    Db → ℕ → (ActionStatus → Bool) → ActionStatus → Fields → ℕ → Option ActionRecord × Db
written db action_id p status result now =
    let actions = update_where (at_status action_id p) (set_result status result now) db.actions in
    (find_action action_id actions, record db { actions = actions })

unfoldable pub finish_current :
    Db
    → ℕ
    → DispatchAttemptRecord
    → ActionRecord
    → ActionStatus
    → Fields
    → ℕ
    → Option ActionRecord × Db
unfolding merged_result
finish_current db action_id latest row status result now =
    if is_sending row.status
    then written db action_id is_sending status result now
    else if is_sent status
        && (is_failed_needs_review row.status && same_sent_message latest.sent_message_id result)
    then written db action_id is_failed_needs_review ActionStatus.sent
        (merged_result row.result result) now
    else (none, db)

unfoldable pub finish_checked :
    Db
    → ℕ
    → ℕ
    → ActionStatus
    → Fields
    → ℕ
    → Option DispatchAttemptRecord
    → Option ActionRecord
    → Option ActionRecord × Db
unfolding finish_current
finish_checked db action_id attempt_id status result now none row = (none, db)
finish_checked db action_id attempt_id status result now (some latest) none = (none, db)
finish_checked db action_id attempt_id status result now (some latest) (some row) =
    if latest.id == attempt_id
    then finish_current db action_id latest row status result now
    else (none, db)

-- finish_claimed_action; `none` means that the claim is no longer current
unfoldable pub finish_claimed_action :
    Db → ℕ → ℕ → ActionStatus → Fields → ℕ → Option ActionRecord × Db
unfolding finish_checked
finish_claimed_action db action_id attempt_id status result now =
    finish_checked db action_id attempt_id status result now (latest_attempt action_id db.attempts)
      (find_action action_id db.actions)
