-- ===== src/Lib.antt =====
-- feishu-shadow-agent: an agent that answers messages in Feishu chats in its owner's name, or asks
-- the owner first.
--
-- The program polls messages (ingestion), keeps those that concern the owner (eligibility), routes
-- them to tasks, lets a language model answer (task sessions), and queues what follows as actions in
-- a SQLite store: replies to a chat and notifications of the owner. The dispatcher sends the actions
-- that are due through lark-cli. This library models how a message is stored and routed, the part that
-- decides whether a reply leaves, the owner's answers to drafts, and the part that sends a reply and
-- records what became of it.
--
-- Modules, with the code that each is about (under src/feishu_shadow_agent):
--   Json           the values of json.loads, as dictionaries of payloads and results use them
--   Types          types.py: statuses, kinds and the records that the components exchange
--   Decision       decision.py: validate_decision_reason
--   Eligibility    message_eligibility.py: MessageEligibilityPolicy.decide
--   Revision       revision.py: assess_revision_impact
--   Membership     membership.py: the stored fact of a chat, its probes, its notices
--   Policy         policy.py: resolve_chat_policy; Policy/Gate: the gates on replies and downloads
--   Store          store/sqlite_store.py: the tables; Store/Dispatch: claim, attempts and end;
--                  Store/Recovery: stale sends; Store/Create and Store/Notify: new actions;
--                  Store/Index: the unique index of active replies (store/schema.sql);
--                  Store/Fence: edited sources and expired approvals; Store/Operator: the owner's
--                  operations; Store/Lifecycle: all of them as steps, with the status diagrams;
--                  Store/Messages: the upsert of polled messages, Store/Messages/Accept and
--                  Store/Messages/Replay: the log that it refines; Store/Stale: what a fence leaves
--   Tasks          store/sqlite_store.py: tasks, their messages and watch keys; Tasks/Attach,
--                  Tasks/Create and Tasks/Takeover: what a message does to a task; Tasks/Audits: the
--                  audits of routes; Tasks/Markers: how far a message was processed; Tasks/Related:
--                  closed tasks that a message may be about; Tasks/Retries: the queue of retries;
--                  Tasks/Closing: closing and reopening by the operator
--   Routing        routing.py: Routing/Candidates: CandidateCollector and the matches; Routing/Route:
--                  MessageRouter.route; Routing/Cases: its endings, over which its properties go
--   Ingestion      ingestion.py: _process_raw_message after normalisation: store, confirm, fence,
--                  judge and route; Ingestion/Quiet: that a recalled message stays so
--   Approvals      store/sqlite_store.py: the approvals of drafted replies and the commands that answer
--                  them; Approvals/Create: create_send_reply_approval; Approvals/Resolve: /approve and
--                  /reject; Approvals/Send: /send; Approvals/Command: apply_approval_command with its
--                  savepoint and record; Approvals/Notices and Approvals/Feedback: what they write
--                  beside; Approvals/Cases: the ways in which a command returns; Approvals/Steps:
--                  drafts, commands, expiry and fences as steps; the other children: its properties
--   Dispatcher     dispatcher.py: Dispatcher/Send: _call_send; Dispatcher/Execute:
--                  _execute_actual; Dispatcher/Readback: _readback; Dispatcher/Extract:
--                  _extract_message_id; Dispatcher/Notices: previews and failure notices;
--                  Dispatcher/Loop: dispatch; Dispatcher/Evidence: mark_action_sent_after_readback,
--                  for a send that the owner reports; Dispatcher/Absence: what a failed send proves
--                  of the bot's membership (membership.py), and what is written of it;
--                  Dispatcher/Unsigned: what the dry run and the send have in common
--   Tests          one conversation, to which the theorems of the results are applied
--
-- How state is modelled. A table is a list of rows in insertion order; an operation takes the store
-- and gives its answer with the store afterwards. Each operation of the store is one transaction, so
-- a run of the program is a list of steps (Store/Lifecycle/Traces). The dispatcher threads the store
-- and the list of the calls made to lark-cli, the newest first. What answers a call is a function of
-- the calls made so far, and so are the clock and what the task and policy tables answer: each of the
-- two calls of an action reads them again. The membership facts are part of the dispatcher's state. What
-- other processes do to the store and to these facts during a call is a function of the environment.
-- An exception of a command on approvals carries the tables as they stood at the raise, so that the
-- rollback to the savepoint is a step of its own.
--
-- Bounds. Loops over rows and messages are structural, so there is no fuel. Identifiers, revisions and
-- instants are natural numbers; an instant counts microseconds, and a time that has no offset or does
-- not parse is the value `unreadable`. The exit code of a command is its absolute value.
--
-- Parameters. lark-cli and the readback, what ingestion calls beside store, eligibility and router,
-- the digest of idempotency keys (json.dumps and SHA-256), the digest of a message's content, the
-- names tried for a short id, the texts that str.split, LIKE and slicing make for tasks, str.strip,
-- str.split and what regular expressions do with the mentions in a text, the columns of a message that
-- only the notices of approvals show, the text and the card of a notification, and what pydantic makes
-- of a stored policy.
--
-- Not modelled: logging, the exception's type name in results, run ids and the random tokens of
-- dispatch claims (nothing reads them back), the raw page of a readback, the rows that a readback
-- writes beside its message, the task sessions, the normalisation of messages, the
-- retention and the loop of the daemon. The owner's takeover of a task and the commands on approvals are not among the steps of
-- Store/Lifecycle.
pub mod Prelude
pub mod Json
pub mod Types
pub mod Decision
pub mod Eligibility
pub mod Revision
pub mod Membership
pub mod Policy
pub mod Store
pub mod Dispatcher
pub mod Tasks
pub mod Routing
pub mod Ingestion
pub mod Approvals
pub mod Tests
