-- ===== src/Tasks/Audits.antt =====
-- store/sqlite_store.py: the audit of routes, which tells whether a message was routed before.
use feishu_shadow_agent.Prelude.{
  ◌≡◌, refl, ℕ, suc, String, Bool, true, false, not, ◌&&◌, Option, none, some, List, [], ◌∷◌, ◌++◌,
  ◌==◌, any, if◌then◌else◌, nat_eq, string_eq,
}
use feishu_shadow_agent.Types.{RouteDecision, RouteName, ignore, TaskRecord}
use feishu_shadow_agent.Tasks.{TaskDb, RoutingAudit, get_task_by_id}

abbrev pub audits_message : String → ℕ → RoutingAudit → Bool
audits_message m revision a = a.message_id == m && a.revision == revision

-- message_has_routing_audit
unfoldable pub message_has_routing_audit : TaskDb → String → ℕ → Bool
message_has_routing_audit db m revision = any (audits_message m revision) db.audits

abbrev pub is_ignore : RouteName → Bool
is_ignore ignore = true
is_ignore _ = false

-- route = 'ignore' AND route_reason = 'duplicate_message'
abbrev pub is_duplicate : RouteDecision → Bool
is_duplicate d = is_ignore d.route && d.reason == "duplicate_message"

-- the same of a row; where the reason is NULL, SQL excludes a row with the route 'ignore' as well
abbrev pub is_duplicate_reason : Option String → Bool
is_duplicate_reason none = true
is_duplicate_reason (some reason) = reason == "duplicate_message"

abbrev pub is_duplicate_row : RoutingAudit → Bool
is_duplicate_row a = is_ignore a.route && is_duplicate_reason a.route_reason

-- the last row in the order of id, which is the order of insertion
abbrev pub last_or {ℓ} : {A : Type ℓ} → Option A → Option A → Option A
last_or a none = a
last_or a (some b) = some b

unfoldable pub latest_audit : String → ℕ → List RoutingAudit → Option RoutingAudit
latest_audit m revision [] = none
latest_audit m revision (a ∷ rest) =
    let later = latest_audit m revision rest in
    if audits_message m revision a && not (is_duplicate_row a)
    then last_or (some a) later
    else later

abbrev pub task_found : TaskDb → Option ℕ → Option TaskRecord
task_found db none = none
task_found db (some i) = get_task_by_id db i

-- row["target_task_id"] or row["task_id"]
abbrev pub id_or : Option ℕ → Option ℕ → Option ℕ
id_or none other = other
id_or (some i) other = if i == 0 then other else some i

-- row["route_reason"] or ""
abbrev reason_or_empty : Option String → String
reason_or_empty none = ""
reason_or_empty (some reason) = reason

-- bool(row[column]), and int(flag)
abbrev pub bool_of : ℕ → Bool
bool_of n = not (n == 0)

abbrev pub int_of : Bool → ℕ
int_of true = 1
int_of false = 0

-- the decision that is built from a row
abbrev pub decision_of : RoutingAudit → RouteDecision
decision_of a = record {
  route = a.route;
  target_task_id = id_or a.target_task_id a.task_id;
  reason = reason_or_empty a.route_reason;
  candidates_count = a.candidates_count;
  shortcut_hit = bool_of a.shortcut_hit;
  router_called = bool_of a.router_called;
  matched_by = a.matched_by;
}

abbrev pub with_task : TaskDb → Option RoutingAudit → Option (RouteDecision × Option TaskRecord)
with_task db none = none
with_task db (some a) = some (decision_of a, task_found db (id_or a.target_task_id a.task_id))

-- get_latest_non_duplicate_routing_decision
unfoldable pub latest_non_duplicate_routing_decision :
    TaskDb → String → ℕ → Option (RouteDecision × Option TaskRecord)
unfolding latest_audit
latest_non_duplicate_routing_decision db m revision =
    with_task db (latest_audit m revision db.audits)

abbrev pub audit_row : ℕ → String → ℕ → RouteDecision → ℕ → RoutingAudit
audit_row id m revision d now = record {
  id = id;
  message_id = m;
  revision = revision;
  task_id = d.target_task_id;
  route = d.route;
  route_reason = some d.reason;
  candidates_count = d.candidates_count;
  shortcut_hit = int_of d.shortcut_hit;
  router_called = int_of d.router_called;
  matched_by = d.matched_by;
  target_task_id = d.target_task_id;
  created_at = now;
}

-- _record_routing_audit
unfoldable pub record_routing_audit : String → ℕ → RouteDecision → ℕ → TaskDb → TaskDb
record_routing_audit m revision d now db = record db {
  audits = db.audits ++ audit_row db.next_audit_id m revision d now ∷ [];
  next_audit_id = suc db.next_audit_id;
}

id_or-same : (o : Option ℕ) → id_or o o ≡ o
id_or-same none = refl
id_or-same (some i) = same (i == 0)
  where
    same : (b : Bool) → (if b then some i else some i) ≡ some i
    same true = refl
    same false = refl

bool_of-int_of : (b : Bool) → bool_of (int_of b) ≡ b
bool_of-int_of true = refl
bool_of-int_of false = refl

-- what is read back of a row is the decision that was written
pub with_task-audit_row :
    (db : TaskDb) (id : ℕ) (m : String) (revision : ℕ) (d : RouteDecision) (now : ℕ)
    → with_task db (some (audit_row id m revision d now)) ≡ some (d, task_found db d.target_task_id)
with_task-audit_row db id m revision d now =
    rw (id_or-same d.target_task_id)
      (rw (bool_of-int_of d.shortcut_hit) (rw (bool_of-int_of d.router_called) refl))
