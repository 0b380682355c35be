-- ===== src/Tasks/Frames.antt =====
-- What joining a message to a task leaves alone.
use feishu_shadow_agent.Prelude.{
  ℕ, suc, String, Bool, true, false, List, [], ◌∷◌, ◌++◌, any, if◌then◌else◌, nat_eq, string_eq,
  ◌≡◌, refl, ◌∙◌,
}
use feishu_shadow_agent.Types.{Stamp, NormalizedMessage}
use feishu_shadow_agent.Tasks.{TaskDb, TaskRow, Texts, WatchKey}
use feishu_shadow_agent.Tasks.Attach.{
  add_task_message, add_watch_keys, has_key, links, attach_message_to_task,
  record_agent_message_for_task, watch_keys_for_message, agent_reply_watch_keys_for_message,
}
use feishu_shadow_agent.Tasks.Create.{insert_task}

-- Two states that differ in tasks, their messages and their watch keys at most.
pub record IsLocal (db db' : TaskDb) : Type 0 where
  pub audits : db'.audits ≡ db.audits
  pub next_audit_id : db'.next_audit_id ≡ db.next_audit_id
  pub actions : db'.store.actions ≡ db.store.actions
  pub approvals : db'.store.approvals ≡ db.store.approvals
  pub messages : db'.store.messages ≡ db.store.messages
  pub processing : db'.processing ≡ db.processing

-- the same, but the tasks stay too
pub record IsLink (db db' : TaskDb) : Type 0 where
  pub tasks : db'.tasks ≡ db.tasks
  pub local : IsLocal db db'

IsLocal-refl : (db : TaskDb) → IsLocal db db
IsLocal-refl db = record {
  audits = refl;
  next_audit_id = refl;
  actions = refl;
  approvals = refl;
  messages = refl;
  processing = refl;
}

pub IsLocal-trans : {a b c : TaskDb} → IsLocal a b → IsLocal b c → IsLocal a c
IsLocal-trans p q = record {
  audits = q.audits ∙ p.audits;
  next_audit_id = q.next_audit_id ∙ p.next_audit_id;
  actions = q.actions ∙ p.actions;
  approvals = q.approvals ∙ p.approvals;
  messages = q.messages ∙ p.messages;
  processing = q.processing ∙ p.processing;
}

IsLink-refl : (db : TaskDb) → IsLink db db
IsLink-refl db = record { tasks = refl; local = IsLocal-refl db }

pub IsLink-trans : {a b c : TaskDb} → IsLink a b → IsLink b c → IsLink a c
IsLink-trans p q = record { tasks = q.tasks ∙ p.tasks; local = IsLocal-trans p.local q.local }

IsLink-if :
    (b : Bool) {db x y : TaskDb} → IsLink db x → IsLink db y → IsLink db (if b then x else y)
IsLink-if true hx hy = hx
IsLink-if false hx hy = hy

pub add_task_message-IsLink :
    (i : ℕ) (m role : String) (db : TaskDb) → IsLink db (add_task_message i m role db)
unfolding add_task_message
add_task_message-IsLink i m role db =
    IsLink-if (any (links i m) db.store.task_messages) (IsLink-refl db) (record {
      tasks = refl;
      local = record {
        audits = refl;
        next_audit_id = refl;
        actions = refl;
        approvals = refl;
        messages = refl;
        processing = refl;
      };
    })

add_watch_key-IsLink :
    (i : ℕ) (k : WatchKey) (db : TaskDb)
    → IsLink db (
        if any (has_key i k) db.watch_keys
        then db
        else record db { watch_keys = db.watch_keys ++ record { task_id = i; key = k } ∷ [] })
add_watch_key-IsLink i k db = IsLink-if (any (has_key i k) db.watch_keys) (IsLink-refl db) (record {
  tasks = refl;
  local = record {
    audits = refl;
    next_audit_id = refl;
    actions = refl;
    approvals = refl;
    messages = refl;
    processing = refl;
  };
})

pub add_watch_keys-IsLink :
    (i : ℕ) (ks : List WatchKey) (db : TaskDb) → IsLink db (add_watch_keys i ks db)
unfolding add_watch_keys
add_watch_keys-IsLink i [] db = IsLink-refl db
add_watch_keys-IsLink i (k ∷ ks) db =
    IsLink-trans (add_watch_key-IsLink i k db) (add_watch_keys-IsLink i ks _)

-- what a message's link and keys leave alone
linked-IsLink :
    (i : ℕ) (m role : String) (ks : List WatchKey) (db : TaskDb)
    → IsLink db (add_watch_keys i ks (add_task_message i m role db))
linked-IsLink i m role ks db =
    IsLink-trans (add_task_message-IsLink i m role db)
      (add_watch_keys-IsLink i ks (add_task_message i m role db))

pub attach-IsLocal :
    (texts : Texts) (i : ℕ) (m : NormalizedMessage) (watch_until : Stamp) (now : ℕ) (db : TaskDb)
    → IsLocal db (attach_message_to_task texts i m watch_until now db)
unfolding attach_message_to_task
attach-IsLocal texts i m watch_until now db =
    let l = (linked-IsLink i m.message_id "follow_up" (watch_keys_for_message m) db).local in
    record {
      audits = l.audits;
      next_audit_id = l.next_audit_id;
      actions = l.actions;
      approvals = l.approvals;
      messages = l.messages;
      processing = l.processing;
    }

pub record_agent-IsLocal :
    (texts : Texts) (i : ℕ) (m : NormalizedMessage) (watch_until : Stamp) (now : ℕ) (db : TaskDb)
    → IsLocal db (record_agent_message_for_task texts i m watch_until now db)
unfolding record_agent_message_for_task
record_agent-IsLocal texts i m watch_until now db =
    let l =
      (linked-IsLink i m.message_id "agent_reply" (agent_reply_watch_keys_for_message m)
        db).local in
    record {
      audits = l.audits;
      next_audit_id = l.next_audit_id;
      actions = l.actions;
      approvals = l.approvals;
      messages = l.messages;
      processing = l.processing;
    }

-- a new task is the last row of its table
pub insert_task-IsLink :
    (row : TaskRow) (m : NormalizedMessage) (db : TaskDb)
    → IsLink
        (record db { tasks = db.tasks ++ row ∷ []; next_task_id = suc db.next_task_id })
        (insert_task row m db)
unfolding insert_task
insert_task-IsLink row m db =
    linked-IsLink row.task.id m.message_id "root" (watch_keys_for_message m) _

pub insert_task-IsLocal :
    (row : TaskRow) (m : NormalizedMessage) (db : TaskDb) → IsLocal db (insert_task row m db)
insert_task-IsLocal row m db =
    let l = (insert_task-IsLink row m db).local in
    record {
      audits = l.audits;
      next_audit_id = l.next_audit_id;
      actions = l.actions;
      approvals = l.approvals;
      messages = l.messages;
      processing = l.processing;
    }
