-- ===== src/Store/Index.antt =====
-- store/schema.sql and sqlite_store.py: the unique index that keeps one active reply for each
-- task, target, mode and source, and the query by which the code looks for one first.
use feishu_shadow_agent.Prelude.{
  ℕ, String, Bool, true, false, not, ◌&&◌, ◌||◌, Option, none, some, List, ◌==◌, any, nat_eq,
  string_eq, option_eq, is_some,
}
use feishu_shadow_agent.Types.{ActionStatus, ActionRecord, ExecutionMode, same_mode, is_send_reply}

-- status IN ('pending', 'sending', 'failed_needs_review')
abbrev pub is_active : ActionStatus → Bool
is_active ActionStatus.pending = true
is_active ActionStatus.sending = true
is_active ActionStatus.failed_needs_review = true
is_active _ = false

-- COALESCE(source_message_id, ''), COALESCE(source_revision, 0)
abbrev pub text_or_blank : Option String → String
text_or_blank none = ""
text_or_blank (some s) = s

abbrev pub number_or_zero : Option ℕ → ℕ
number_or_zero none = 0
number_or_zero (some n) = n

-- x = ? of a column: NULL is equal to nothing
abbrev pub equals_nat : Option ℕ → Option ℕ → Bool
equals_nat (some a) (some b) = a == b
equals_nat _ _ = false

abbrev pub equals_text : Option String → Option String → Bool
equals_text (some a) (some b) = a == b
equals_text _ _ = false

-- the rows of idx_actions_active_send_reply_target
abbrev pub in_index : ActionRecord → Bool
in_index r = is_send_reply r.kind && (is_active r.status && is_some r.target_message_id)

-- two rows have the same key in the index; NULL task ids are distinct
abbrev pub same_key : ActionRecord → ActionRecord → Bool
same_key a b =
    equals_nat a.task_id b.task_id
    && (equals_text a.target_message_id b.target_message_id
        && (same_mode a.execution_mode b.execution_mode
            && (text_or_blank a.source_message_id == text_or_blank b.source_message_id
                && number_or_zero a.source_revision == number_or_zero b.source_revision)))

abbrev pub conflicts : ActionRecord → ActionRecord → Bool
conflicts a b = not (a.id == b.id) && (in_index a && (in_index b && same_key a b))

-- a row that is written breaks the index: sqlite3.IntegrityError
unfoldable pub violates_index : ActionRecord → List ActionRecord → Bool
violates_index row rows = any (conflicts row) rows

-- the source predicate of _has_active_send_reply_action
abbrev pub source_predicate : Option String → Option ℕ → ActionRecord → Bool
source_predicate (some m) (some n) r =
    not (is_some r.source_message_id) && not (is_some r.source_revision)
    || equals_text r.source_message_id (some m) && equals_nat r.source_revision (some n)
source_predicate _ _ r = not (is_some r.source_message_id) && not (is_some r.source_revision)

-- What a reply is bound to: the arguments that the queries share.
pub record ReplyKey : Type 0 where
  pub task_id : ℕ
  pub target_message_id : String
  pub execution_mode : ExecutionMode
  pub source_message_id : Option String
  pub source_revision : Option ℕ

abbrev pub blocks_reply : ReplyKey → ℕ → ActionRecord → Bool
blocks_reply k exclude r =
    equals_nat r.task_id (some k.task_id)
    && (equals_text r.target_message_id (some k.target_message_id)
        && (is_send_reply r.kind
            && (is_active r.status
                && (same_mode r.execution_mode k.execution_mode
                    && (not (r.id == exclude)
                        && source_predicate k.source_message_id k.source_revision r)))))

-- _has_active_send_reply_action
unfoldable pub has_active_send_reply_action : ReplyKey → ℕ → List ActionRecord → Bool
has_active_send_reply_action k exclude rows = any (blocks_reply k exclude) rows
