-- ===== src/Dispatcher/Evidence.antt =====
-- dispatcher.py: the owner says that an action was sent under a message id; the message is read back,
-- and is evidence only if it is the one that the action would have sent.
use feishu_shadow_agent.Prelude.{
  ℕ, String, Bool, true, false, not, ◌&&◌, ◌||◌, Option, none, some, List, ◌≡◌, ◌≢◌, ◌⊎◌, inl, inr,
  refl, arith, ◌==◌, any, if◌then◌else◌, string_eq, eq_iff, Option-cases, Bool-cases,
}
use feishu_shadow_agent.Json.{Json, str, obj, Fields, get, get_or_null, text_or_empty}
use feishu_shadow_agent.Types.{ActionRecord, NormalizedMessage, is_send_reply}
use feishu_shadow_agent.Store.{find_action, payload_send_text}
use feishu_shadow_agent.Store.Recovery.{is_true}
use feishu_shadow_agent.Store.Operator.{
  StoreError, Outcome, done, raised, mark_action_sent_after_evidence,
}
use feishu_shadow_agent.Dispatcher.{
  not_normalized, Env, State, ReadBack, read, read_failed, read_missing, empty_result, to_fields,
  target_message_id, payload_identity,
}
use feishu_shadow_agent.Dispatcher.Readback.{read_result, ReadbackOutcome, readback_outcome, graded}

-- The errors of _mark_sent_evidence_error.
pub data EvidenceError : Type 0 where
  not_verified other_message other_target other_mentions other_text : EvidenceError

-- value == s, of a JSON value and a text
abbrev is_str : Json → String → Bool
is_str (str s) t = s == t
is_str _ t = false

-- _mark_sent_text_evidence_error
abbrev text_differs : Env → String → Fields → Bool
text_differs env expected readback =
    let expected_text = env.evidence_text expected in
    let actual_text = env.evidence_text (text_or_empty (get_or_null "text" readback)) in
    not (expected_text == "") && not (actual_text == expected_text)

-- not target_message_id, or readback.get("reply_to_message_id") != target_message_id
abbrev target_differs : Option String → Fields → Bool
target_differs none readback = true
target_differs (some target) readback =
    not (is_str (get_or_null "reply_to_message_id" readback) target)

abbrev mentions_differ : List String → Bool
mentions_differ warnings =
    any (λ w. w == "readback_mentions_mismatch" || w == "readback_mentions_unavailable") warnings

abbrev reply_evidence_error : Env → ActionRecord → Fields → List String → Option EvidenceError
reply_evidence_error env action readback warnings =
    if target_differs (target_message_id action) readback
    then some other_target
    else if mentions_differ warnings
    then some other_mentions
    else if text_differs env (payload_send_text action.payload) readback
    then some other_text
    else none

-- _mark_sent_evidence_error
unfoldable pub mark_sent_evidence_error :
    Env → ActionRecord → String → Fields → List String → Option EvidenceError
mark_sent_evidence_error env action m readback warnings =
    if not (is_true (get_or_null "ok" readback))
    then some not_verified
    else if not (is_str (get_or_null "message_id" readback) m)
    then some other_message
    else if is_send_reply action.kind
    then reply_evidence_error env action readback warnings
    else if text_differs env (env.owner_notification_text action.payload) readback
    then some other_text
    else none

-- The status that is returned: sent with the row, or failed with its error.
pub data Marked : Type 0 where
  marked : ActionRecord → Marked
  no_action no_id : Marked
  no_evidence : EvidenceError → Marked
  refused : StoreError → Marked
  -- the exception of the readback leaves the operation
  escaped : String → Marked

abbrev stored : State → Outcome ActionRecord → Marked × State
stored s (done row db) = (marked row, record s { db = db })
stored s (raised e) = (refused e, s)

abbrev inserted_by : Env → Option NormalizedMessage → Option Bool
inserted_by env none = none
inserted_by env (some message) = some (env.inserts message)

abbrev result_of : String → ReadbackOutcome → Fields
result_of m outcome = to_fields (record empty_result {
  sent_message_id = some m;
  readback = obj outcome.result;
  warnings = outcome.warnings;
})

mark_with : Env → State → ℕ → String → ReadbackOutcome → Option EvidenceError → Marked × State
mark_with env s i m outcome (some e) = (no_evidence e, s)
mark_with env s i m outcome none = stored s (
    mark_action_sent_after_evidence s.db i m (result_of m outcome) (inserted_by env outcome.message)
      (env.now s.calls))

mark_read :
    Env → State → ActionRecord → ℕ → String → ReadbackOutcome → Option String → Marked × State
unfolding mark_with
mark_read env s action i m outcome (some error) = (escaped error, s)
mark_read env s action i m outcome none =
    mark_with env s i m outcome
      (mark_sent_evidence_error env action m outcome.result outcome.warnings)

mark_found : Env → State → ℕ → String → Option ActionRecord → Marked × State
unfolding mark_read
mark_found env s i m none = (no_action, s)
mark_found env s i m (some action) =
    if m == ""
    then (no_id, s)
    else let outcome = readback_outcome env action m in
      mark_read env s action i m outcome outcome.exception

-- mark_action_sent_after_readback
unfoldable pub mark_action_sent_after_readback : Env → State → ℕ → String → Marked × State
unfolding mark_found
mark_action_sent_after_readback env s i m = mark_found env s i m (find_action i s.db.actions)

-- the identity as which a message is read back, and the text that it should have
abbrev pub reads_as : ActionRecord → String
reads_as action = if is_send_reply action.kind then payload_identity action else "bot"

abbrev pub expected_text : Env → ActionRecord → String
expected_text env action = env.evidence_text (
    if is_send_reply action.kind
    then payload_send_text action.payload
    else env.owner_notification_text action.payload)

-- What the evidence for an action is: its message, in answer to its target, with its text.
abbrev pub IsEvidence : Env → ActionRecord → String → NormalizedMessage → Type 0
IsEvidence env action m message =
    (env.get_messages (reads_as action) m ≡ read message)
    × (((is_send_reply action.kind ≡ false)
          ⊎ (message.reply_to_message_id ≡ target_message_id action))
        × ((expected_text env action ≡ "")
            ⊎ (env.evidence_text message.text ≡ expected_text env action)))

text-matches :
    (env : Env) (expected : String) (message : NormalizedMessage) (m : String)
    → text_differs env expected (read_result m message) ≡ false
    → (env.evidence_text expected ≡ "")
      ⊎ (env.evidence_text message.text ≡ env.evidence_text expected)
unfolding get
text-matches env expected message m h = ground (
  arith,
  eq_iff (env.evidence_text expected) "",
  eq_iff (env.evidence_text message.text) (env.evidence_text expected),
)

target-matches :
    (target : Option String) (message : NormalizedMessage) (m : String)
    → target_differs target (read_result m message) ≡ false
    → message.reply_to_message_id ≡ target
unfolding get
target-matches none message m h = cc
target-matches (some target) message m h = elim (Option-cases message.reply_to_message_id) [
  | inl e ↦ ground arith
  | inr (x, e) ↦ ground (arith, eq_iff x target)
]

read-IsEvidence :
    (env : Env) (action : ActionRecord) (m : String) (message : NormalizedMessage)
    (warnings : List String)
    → mark_sent_evidence_error env action m (read_result m message) warnings ≡ none
    → ((is_send_reply action.kind ≡ false)
        ⊎ (message.reply_to_message_id ≡ target_message_id action))
      × ((expected_text env action ≡ "")
          ⊎ (env.evidence_text message.text ≡ expected_text env action))
unfolding mark_sent_evidence_error
read-IsEvidence env action m message warnings h = ground (
  arith,
  target-matches (target_message_id action) message m,
  text-matches env (payload_send_text action.payload) message m,
  text-matches env (env.owner_notification_text action.payload) message m,
)

graded-IsEvidence :
    (env : Env) (action : ActionRecord) (m : String) (r : ReadBack)
    → env.get_messages (reads_as action) m ≡ r
    → mark_sent_evidence_error env action m
        (graded env action m r).result
        (graded env action m r).warnings
      ≡ none
    → (message : NormalizedMessage) × IsEvidence env action m message
unfolding mark_sent_evidence_error graded get
graded-IsEvidence env action m (read_failed error) e h = cc
graded-IsEvidence env action m read_missing e h = cc
graded-IsEvidence env action m (not_normalized error) e h = cc
graded-IsEvidence env action m (read message) e h = (
  message,
  (e, read-IsEvidence env action m message (graded env action m (read message)).warnings h),
)

marked_with :
    (env : Env) (s : State) (i : ℕ) (m : String) (outcome : ReadbackOutcome)
    (o : Option EvidenceError) (row : ActionRecord)
    → (mark_with env s i m outcome o).0 ≡ marked row
    → o ≡ none
unfolding mark_with
marked_with env s i m outcome (some e) row h = cc h
marked_with env s i m outcome none row h = refl

marked_read :
    (env : Env) (s : State) (action : ActionRecord) (i : ℕ) (m : String) (outcome : ReadbackOutcome)
    (x : Option String) (row : ActionRecord)
    → (mark_read env s action i m outcome x).0 ≡ marked row
    → mark_sent_evidence_error env action m outcome.result outcome.warnings ≡ none
unfolding mark_read
marked_read env s action i m outcome (some error) row h = cc h
marked_read env s action i m outcome none row h = marked_with env s i m outcome _ row h

marked_found :
    (env : Env) (s : State) (i : ℕ) (m : String) (o : Option ActionRecord) (row : ActionRecord)
    → (mark_found env s i m o).0 ≡ marked row
    → (action : ActionRecord) × ((o ≡ some action)
        × ((message : NormalizedMessage) × IsEvidence env action m message))
unfolding mark_found readback_outcome
marked_found env s i m none row h = cc h
marked_found env s i m (some action) row h = (
  action,
  (refl, graded-IsEvidence env action m (env.get_messages (reads_as action) m) refl no_error),
)
  where
    outcome : ReadbackOutcome
    outcome = readback_outcome env action m

    no_error : mark_sent_evidence_error env action m outcome.result outcome.warnings ≡ none
    no_error = elim (Bool-cases (m == "")) [
      | inl t ↦ cc (let h' : no_id ≡ marked row = rw t at h in h')
      | inr f ↦ marked_read env s action i m outcome outcome.exception row (rw f at h)
    ]

-- The owner's word that an action was sent is taken only on evidence: if the action is recorded as
-- sent under a message id, then reading that id back gave a message, which answers the target of a
-- reply, and which has the text that the action would have sent, if there is one.
pub marked_as_sent :
    (env : Env) (s : State) (i : ℕ) (m : String) (row : ActionRecord)
    → (mark_action_sent_after_readback env s i m).0 ≡ marked row
    → (action : ActionRecord) × ((find_action i s.db.actions ≡ some action)
        × ((message : NormalizedMessage) × IsEvidence env action m message))
unfolding mark_action_sent_after_readback
marked_as_sent env s i m row h = marked_found env s i m (find_action i s.db.actions) row h

graded-ne-other_message :
    (env : Env) (action : ActionRecord) (m : String) (r : ReadBack)
    → mark_sent_evidence_error env action m
        (graded env action m r).result
        (graded env action m r).warnings
      ≢ some other_message
unfolding mark_sent_evidence_error graded get
graded-ne-other_message env action m (read_failed error) = λ h. cc
graded-ne-other_message env action m read_missing = λ h. cc
graded-ne-other_message env action m (not_normalized error) = λ h. cc
graded-ne-other_message env action m (read message) = ground (arith, eq_iff m m)

-- The error for a readback of another message is never given, whatever the client answers: the
-- readback carries the id that was asked for, not that of the message that was found.
pub mark_sent_evidence_error-ne-other_message :
    (env : Env) (action : ActionRecord) (m : String)
    → mark_sent_evidence_error env action m
        (readback_outcome env action m).result
        (readback_outcome env action m).warnings
      ≢ some other_message
unfolding readback_outcome
mark_sent_evidence_error-ne-other_message env action m =
    graded-ne-other_message env action m (env.get_messages (reads_as action) m)
