-- ===== src/Store/Lifecycle/Owner.antt =====
-- The owner's operations on an action by hand, against the diagram of its statuses.
use feishu_shadow_agent.Prelude.{
  ℕ, String, Bool, true, false, Option, none, some, List, ◌≡◌, refl, arith, ◌==◌, nat_eq, ◌||◌,
  update_where, Bool-cases, inl, inr, if◌then◌else◌, nat_beq_iff, not, string_eq,
}
use feishu_shadow_agent.Json.{Fields, get_or_null}
use feishu_shadow_agent.Types.{
  ActionStatus, ActionRecord, cancelled, is_failed, is_failed_needs_review, is_sent, is_cancelled,
}
use feishu_shadow_agent.Store.{Db, find_action, latest_attempt}
use feishu_shadow_agent.Store.Dispatch.{set_status}
use feishu_shadow_agent.Store.Operator.{
  Outcome, raised, db_after, has_id, reset_pending, set_sent, returned, retry_row, cancel_row,
  mark_row, retry_dispatch_action, cancel_dispatch_action, mark_action_sent_after_evidence,
  action_not_found, stale_source, with_source, blocked, reply_key_of, evidence_ok,
  verified_attempts, next_after,
}
use feishu_shadow_agent.Store.Index.{violates_index}
use feishu_shadow_agent.Store.Moves.{Moves, Moves-refl, find-update_where, find-id}
use feishu_shadow_agent.Store.Lifecycle.{Manual, run_manual, manual}

manual_refl : (s : ActionStatus) → manual s s ≡ true
manual_refl s = ground arith

-- an UPDATE of one row that was read before
row-Moves :
    (i : ℕ) (f : ActionRecord → ActionRecord) (rows : List ActionRecord) (row : ActionRecord)
    → ((r : ActionRecord) → (f r).id ≡ r.id)
    → ((r : ActionRecord) → (f r).kind ≡ r.kind)
    → ((r : ActionRecord) → (f r).idempotency_key ≡ r.idempotency_key)
    → find_action i rows ≡ some row
    → manual row.status (f row).status ≡ true
    → Moves manual rows (update_where (has_id i) f rows)
row-Moves i f rows row hi hk hx found edge = record {
  at = λ j a h. (
    if has_id i a then f a else a,
    find-update_where (has_id i) f hi j rows a h,
    elim (Bool-cases (has_id i a)) [
      | inl t ↦ rw t (record {
        id = hi a;
        kind = hk a;
        key = hx a;
        status = edge_at j a h ((nat_beq_iff a.id i).0 t);
      })
      | inr t ↦ rw t (record { id = refl; kind = refl; key = refl; status = manual_refl a.status })
    ],
  );
}
  where
    same_row : (j : ℕ) (a : ActionRecord) → find_action j rows ≡ some a → a.id ≡ i → a ≡ row
    same_row j a h e = cc (found, h, e, find-id j rows a h)

    edge_at :
        (j : ℕ) (a : ActionRecord)
        → find_action j rows ≡ some a
        → a.id ≡ i
        → manual a.status (f a).status ≡ true
    edge_at j a h e = rw (same_row j a h e) edge

-- The store after an outcome.
record EndsManual (db : Db) (x : Outcome ActionRecord) : Type 0 where
  moves : Moves manual db.actions (db_after db x).actions

stays :
    (db : Db) (x : Outcome ActionRecord) → (db_after db x).actions ≡ db.actions → EndsManual db x
stays db x h = record { moves = rw h (Moves-refl manual manual_refl db.actions) }

returned-EndsManual :
    (db db' : Db) (i : ℕ) (rows : List ActionRecord) (row : Option ActionRecord)
    → Moves manual db.actions rows
    → EndsManual db (returned db' i rows row)
returned-EndsManual db db' i rows none m = stays db (raised action_not_found) refl
returned-EndsManual db db' i rows (some row) m = record { moves = m }

EndsManual-if :
    (db : Db) (b : Bool) {x y : Outcome ActionRecord}
    → (b ≡ true → EndsManual db x)
    → (b ≡ false → EndsManual db y)
    → EndsManual db (if b then x else y)
EndsManual-if db true hx hy = hx refl
EndsManual-if db false hx hy = hy refl

module _ (db : Db) (i now : ℕ) (row : ActionRecord)
    (found : find_action i db.actions ≡ some row) where
  cancel_row-Ends : EndsManual db (cancel_row db i now row)
  unfolding cancel_row
  cancel_row-Ends =
      EndsManual-if db (is_sent row.status) (λ t. stays db _ refl)
        λ t.
          EndsManual-if db (is_cancelled row.status) (λ u. stays db _ refl)
            λ u. returned-EndsManual db db i _ _ (
              row-Moves i (set_status cancelled now) db.actions row (λ r. refl) (λ r. refl)
                (λ r. refl) found (ground arith))

  mark_row-Ends :
      (m : String) (readback result : Fields)
      → EndsManual db (mark_row db i now m readback result row)
  unfolding mark_row
  mark_row-Ends m readback result =
      EndsManual-if db (is_cancelled row.status) (λ t. stays db _ refl)
        λ t.
          returned-EndsManual db
            (record db {
              attempts = verified_attempts db i now readback m (latest_attempt i db.attempts);
              next_attempt_id = next_after db.next_attempt_id (latest_attempt i db.attempts);
            })
            i _ _
            (row-Moves i (set_sent result now) db.actions row (λ r. refl) (λ r. refl) (λ r. refl)
              found (ground arith))

  retry_row-Ends : EndsManual db (retry_row db i now row)
  unfolding retry_row
  retry_row-Ends =
      EndsManual-if db (not (is_failed row.status || is_failed_needs_review row.status))
        (λ t. stays db _ refl)
        λ t.
          EndsManual-if db
            (stale_source db (with_source row.source_message_id row.source_revision row.payload))
            (λ u. stays db _ refl)
            λ u.
              EndsManual-if db (blocked (reply_key_of row) i db.actions) (λ v. stays db _ refl)
                λ v.
                  EndsManual-if db (violates_index (reset_pending now row) db.actions)
                    (λ w. stays db _ refl)
                    λ w. returned-EndsManual db db i _ _ (
                      row-Moves i (reset_pending now) db.actions row (λ r. refl) (λ r. refl)
                        (λ r. refl) found (ground arith))

module _ (db : Db) (i now : ℕ) where
  cancel-Ends :
      (o : Option ActionRecord)
      → find_action i db.actions ≡ o
      → EndsManual db
          (elim o [ none ↦ raised action_not_found | some row ↦ cancel_row db i now row ])
  cancel-Ends none e = stays db _ refl
  cancel-Ends (some row) e = cancel_row-Ends db i now row e

  retry-Ends :
      (o : Option ActionRecord)
      → find_action i db.actions ≡ o
      → EndsManual db
          (elim o [ none ↦ raised action_not_found | some row ↦ retry_row db i now row ])
  retry-Ends none e = stays db _ refl
  retry-Ends (some row) e = retry_row-Ends db i now row e

  mark-Ends :
      (m : String) (readback result : Fields) (o : Option ActionRecord)
      → find_action i db.actions ≡ o
      → EndsManual db (elim o [
        | none ↦ raised action_not_found
        | some row ↦ mark_row db i now m readback result row
      ])
  mark-Ends m readback result none e = stays db _ refl
  mark-Ends m readback result (some row) e = mark_row-Ends db i now row e m readback result

-- Whatever the owner does by hand, every action stays in the table under its id, kind and
-- idempotency key, and its status stays or moves along an edge of the manual diagram: only a failed
-- or uncertain action becomes pending again, a sent one is never cancelled, and a cancelled one is
-- never marked sent.
pub run_manual-Moves : (o : Manual) (db : Db) → Moves manual db.actions (run_manual o db).actions
unfolding run_manual retry_dispatch_action cancel_dispatch_action mark_action_sent_after_evidence
run_manual-Moves (Manual.retry i now) db = (retry-Ends db i now _ refl).moves
run_manual-Moves (Manual.cancel i now) db = (cancel-Ends db i now _ refl).moves
run_manual-Moves (Manual.mark_sent i m result inserted now) db =
    (EndsManual-if db (m == "") (λ t. stays db _ refl)
      λ t.
        EndsManual-if db (not (evidence_ok (get_or_null "readback" result))) (λ u. stays db _ refl)
          λ u. mark-Ends db i now m _ _ _ refl).moves
