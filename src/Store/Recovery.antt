-- ===== src/Store/Recovery.antt =====
-- store/sqlite_store.py: actions left in `sending` by a process that died are closed, as sent where
-- the attempt proves it, and otherwise for the owner's review.
use feishu_shadow_agent.Prelude.{
  ℕ, suc, ◌+◌, String, Bool, false, not, ◌&&◌, ◌||◌, Option, none, some, List, [], ◌∷◌, ◌++◌, ◌==◌,
  leb, ltb, filter, any, sort_by, update_where, if◌then◌else◌, nat_eq, string_eq, is_some,
}
use feishu_shadow_agent.Json.{
  Json, bool, str, arr, Items, Fields, end, field, get_or_null, put, to_list,
}
use feishu_shadow_agent.Types.{
  ActionStatus, ActionRecord, DispatchAttemptStatus, DispatchErrorStage, DispatchAttemptRecord,
  is_sending, is_readback_ok,
}
use feishu_shadow_agent.Membership.{microseconds}
use feishu_shadow_agent.Store.{Db, latest_attempt}
use feishu_shadow_agent.Store.Dispatch.{at_status, set_result, start_attempt}

-- readback.get("ok") is True
abbrev pub is_true : Json → Bool
is_true (bool b) = b
is_true _ = false

-- bool(sent_message_id)
abbrev pub given_text : Option String → Bool
given_text none = false
given_text (some s) = not (s == "")

-- _loads_json_object
abbrev pub fields_of : Option Fields → Fields
fields_of none = end
fields_of (some d) = d

-- _attempt_proves_readback
unfoldable pub attempt_proves_readback : Option DispatchAttemptRecord → Bool
attempt_proves_readback none = false
attempt_proves_readback (some a) =
    is_readback_ok a.status
    && (given_text a.sent_message_id && is_true (get_or_null "ok" (fields_of a.readback_result)))

-- str(warning): the texts that the code writes; another value reads as an empty text
abbrev text_of : Json → String
text_of (str s) = s
text_of _ = ""

abbrev texts_of : List Json → List String
texts_of [] = []
texts_of (x ∷ xs) = text_of x ∷ texts_of xs

abbrev pub text_items : List String → Items
text_items [] = Items.nil
text_items (s ∷ ss) = Items.cons (str s) (text_items ss)

-- _result_warnings
abbrev pub result_warnings : Json → List String
result_warnings (arr xs) = texts_of (to_list xs)
result_warnings _ = []

-- the warnings with one more, if it is not among them
abbrev pub add_warning : String → Fields → Fields
add_warning w result =
    let warnings = result_warnings (get_or_null "warnings" result) in
    put "warnings"
      (arr (text_items (if any (λ x. x == w) warnings then warnings else warnings ++ w ∷ [])))
      result

abbrev put_text : String → Option String → Fields → Fields
put_text k none d = d
put_text k (some s) d = put k (str s) d

abbrev put_object : String → Fields → Fields → Fields
put_object k end d = d
put_object k (field j v rest) d = put k (Json.obj (field j v rest)) d

-- _stale_sent_result
unfoldable pub stale_sent_result : ActionRecord → DispatchAttemptRecord → Fields
stale_sent_result action attempt = add_warning "recovered_stale_sending_from_readback" (
    put_object "readback" (fields_of attempt.readback_result)
      (put_text "sent_message_id" attempt.sent_message_id action.result))

abbrev sent_id_of : Option DispatchAttemptRecord → Option String
sent_id_of none = none
sent_id_of (some a) = if given_text a.sent_message_id then a.sent_message_id else none

-- _stale_needs_review_result
unfoldable pub stale_needs_review_result : ActionRecord → Option DispatchAttemptRecord → Fields
stale_needs_review_result action attempt = add_warning "stale_sending_needs_review" (
    put_text "sent_message_id" (sent_id_of attempt) (
      put "recovery_reason" (str "stale_sending_uncertain")
        (put "error_stage" (str "recovery") action.result)))

abbrev finish_attempt_at : ℕ → DispatchAttemptRecord → DispatchAttemptRecord
finish_attempt_at now a = if is_some a.finished_at then a else record a { finished_at = some now }

abbrev give_up_attempt : ℕ → DispatchAttemptRecord → DispatchAttemptRecord
give_up_attempt now a = if is_some a.finished_at then a else record a {
  status = DispatchAttemptStatus.uncertain;
  error_stage = some DispatchErrorStage.recovery;
  finished_at = some now;
}

abbrev pub attempt_at : ℕ → DispatchAttemptRecord → Bool
attempt_at i a = a.id == i

abbrev recovery_attempt : ℕ → ℕ → ℕ → DispatchAttemptRecord
recovery_attempt id action_id now = record (start_attempt id action_id now) {
  status = DispatchAttemptStatus.uncertain;
  error_stage = some DispatchErrorStage.recovery;
  finished_at = some now;
}

-- The loop's body for a row whose latest attempt is given: proven, uncertain, or with no attempt.
unfoldable pub recover_proven : ℕ → ActionRecord → DispatchAttemptRecord → Db → Db
recover_proven now row latest db = record db {
  actions =
      update_where (at_status row.id is_sending)
        (set_result ActionStatus.sent (stale_sent_result row latest) now) db.actions;
  attempts = update_where (attempt_at latest.id) (finish_attempt_at now) db.attempts;
}

unfoldable pub recover_uncertain : ℕ → ActionRecord → DispatchAttemptRecord → Db → Db
recover_uncertain now row latest db = record db {
  actions =
      update_where (at_status row.id is_sending)
        (set_result ActionStatus.failed_needs_review (stale_needs_review_result row (some latest))
          now)
        db.actions;
  attempts = update_where (attempt_at latest.id) (give_up_attempt now) db.attempts;
}

unfoldable pub recover_unclaimed : ℕ → ActionRecord → Db → Db
recover_unclaimed now row db = record db {
  actions =
      update_where (at_status row.id is_sending)
        (set_result ActionStatus.failed_needs_review (stale_needs_review_result row none) now)
        db.actions;
  attempts = db.attempts ++ recovery_attempt db.next_attempt_id row.id now ∷ [];
  next_attempt_id = suc db.next_attempt_id;
}

unfoldable pub recover_with : ℕ → ActionRecord → Option DispatchAttemptRecord → Db → Db
unfolding recover_proven recover_uncertain recover_unclaimed
recover_with now row none db = recover_unclaimed now row db
recover_with now row (some latest) db =
    if attempt_proves_readback (some latest)
    then recover_proven now row latest db
    else recover_uncertain now row latest db

unfoldable pub recover_row : ℕ → ActionRecord → Db → Db
unfolding recover_with
recover_row now row db = recover_with now row (latest_attempt row.id db.attempts) db

-- the entry of `recovered` for a row: its id, and whether it was closed as sent
pub record Recovered : Type 0 where
  pub action_id : ℕ
  pub as_sent : Bool

unfoldable pub recovered_entry : ActionRecord → Db → Recovered
recovered_entry row db = record {
  action_id = row.id;
  as_sent = attempt_proves_readback (latest_attempt row.id db.attempts);
}

unfoldable pub recover_rows : ℕ → List ActionRecord → Db → List Recovered × Db
unfolding recover_row recovered_entry
recover_rows now [] db = ([], db)
recover_rows now (row ∷ rows) db =
    let (rest, db') = recover_rows now rows (recover_row now row db) in
    (recovered_entry row db ∷ rest, db')

abbrev update_order : ActionRecord → ActionRecord → Bool
update_order a b = ltb a.updated_at b.updated_at || (a.updated_at == b.updated_at && leb a.id b.id)

-- find_stale_sending_actions
unfoldable pub find_stale_sending_actions : Db → ℕ → ℕ → List ActionRecord
find_stale_sending_actions db stale_after_seconds now = sort_by update_order (
    filter
      (λ (r : ActionRecord).
        is_sending r.status && leb (r.updated_at + microseconds stale_after_seconds) now)
      db.actions)

-- mark_stale_sending_actions_failed_needs_review
unfoldable pub mark_stale_sending_actions : Db → ℕ → ℕ → List Recovered × Db
mark_stale_sending_actions db stale_after_seconds now =
    recover_rows now (find_stale_sending_actions db stale_after_seconds now) db
