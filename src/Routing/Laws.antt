-- ===== src/Routing/Laws.antt =====
-- What MessageRouter.route promises: one audit for each route, and no effect on actions but through the
-- owner.
use feishu_shadow_agent.Prelude.{
  ℕ, String, true, none, some, [], ◌∷◌, ◌++◌, nat_eq, string_eq, ◌≡◌, ◌⊎◌, refl, inl, inr,
}
use feishu_shadow_agent.Types.{
  TaskRecord, RouteDecision, ambiguous, ignore, NormalizedMessage, is_owner_message,
}
use feishu_shadow_agent.Tasks.{TaskDb}
use feishu_shadow_agent.Tasks.Audits.{record_routing_audit, audit_row}
use feishu_shadow_agent.Tasks.Attach.{
  attach_message_to_task, record_agent_message_for_task, attach_message_to_task_and_audit,
  record_agent_message_for_task_and_audit, attached, sent_by_agent,
}
use feishu_shadow_agent.Tasks.Create.{
  created_elim, started, create_task_for_message_and_audit, insert_task, new_row,
}
use feishu_shadow_agent.Tasks.Takeover.{
  owner_answers, close_task_for_owner_takeover_and_audit, close_task_for_owner_takeover,
}
use feishu_shadow_agent.Tasks.Frames.{attach-IsLocal, record_agent-IsLocal, insert_task-IsLocal}
use feishu_shadow_agent.Routing.{Router, Arrival, Routed, decided, audit, on_task}
use feishu_shadow_agent.Routing.Route.{route, is_routed_again}
use feishu_shadow_agent.Routing.Cases.{Endings, attach_as, route-Endings}

-- The audits after a route that wrote one.
abbrev pub Recorded : NormalizedMessage → Arrival → TaskDb → RouteDecision → TaskDb → Type 0
Recorded m a db d db' =
    db'.audits ≡ db.audits ++ audit_row db.next_audit_id m.message_id m.revision d a.clock ∷ []

-- A route that ended normally wrote one audit of its decision, or it took up an earlier route of the
-- same revision and wrote nothing.
abbrev pub Audited : NormalizedMessage → Arrival → TaskDb → Routed → Type 0
Audited m a db none = Unit
Audited m a db (some (res, db')) =
    Recorded m a db res.decision db' ⊎ ((is_routed_again m a db ≡ true) × (db' ≡ db))

recorded :
    (m : NormalizedMessage) (a : Arrival) (db mid : TaskDb) (d : RouteDecision)
    → mid.audits ≡ db.audits
    → mid.next_audit_id ≡ db.next_audit_id
    → Recorded m a db d (record_routing_audit m.message_id m.revision d a.clock mid)
unfolding record_routing_audit
recorded m a db mid d e f = rw e (rw f refl)

ignored-Audited :
    (m : NormalizedMessage) (a : Arrival) (db : TaskDb) (d : RouteDecision)
    → Audited m a db (audit m d a.clock db)
unfolding audit
ignored-Audited m a db d = inl (recorded m a db db d refl refl)

created-Audited :
    (r : Router) (m : NormalizedMessage) (a : Arrival) (db db' : TaskDb) (d : RouteDecision)
    (t : TaskRecord)
    → create_task_for_message_and_audit r.texts m a.watch_until a.agent_working_dir a.clock db
      ≡ some ((d, t), db')
    → Recorded m a db d db'
created-Audited r m a db db' d t h =
    created_elim (λ x. Recorded m a db x.0.0 x.1) r.texts m a.watch_until a.agent_working_dir
      a.clock db ((d, t), db') h
      (λ s u.
        let row = new_row r.texts db.next_task_id s m a.watch_until a.agent_working_dir a.clock in
        let l = insert_task-IsLocal row m db in
        recorded m a db (insert_task row m db) (started row.task) l.audits l.next_audit_id)

attached-Audited :
    (r : Router) (m : NormalizedMessage) (a : Arrival) (db : TaskDb) (t : TaskRecord) (count : ℕ)
    (by reason : String)
    → Audited m a db (attach_as r m a db t count by reason)
unfolding attach_message_to_task_and_audit
attached-Audited r m a db t count by reason =
    let l = attach-IsLocal r.texts t.id m a.watch_until a.clock db in
    inl (
      recorded m a db (attach_message_to_task r.texts t.id m a.watch_until a.clock db)
        (attached t reason count by) l.audits l.next_audit_id)

read_back-Audited :
    (r : Router) (m : NormalizedMessage) (a : Arrival) (db : TaskDb) (t : TaskRecord)
    → Audited m a db
        (on_task t (record_agent_message_for_task_and_audit r.texts t m a.watch_until a.clock db))
unfolding record_agent_message_for_task_and_audit
read_back-Audited r m a db t =
    let l = record_agent-IsLocal r.texts t.id m a.watch_until a.clock db in
    inl (
      recorded m a db (record_agent_message_for_task r.texts t.id m a.watch_until a.clock db)
        (sent_by_agent t) l.audits l.next_audit_id)

yielded-Audited :
    (m : NormalizedMessage) (a : Arrival) (db : TaskDb) (t : TaskRecord)
    → Audited m a db (on_task t (close_task_for_owner_takeover_and_audit t m a.clock db))
unfolding close_task_for_owner_takeover_and_audit close_task_for_owner_takeover
yielded-Audited m a db t =
    inl
      (recorded m a db (close_task_for_owner_takeover t.id a.clock db) (owner_answers t) refl refl)

Audited-endings :
    (r : Router) (m : NormalizedMessage) (a : Arrival) (db : TaskDb)
    → Endings r m a db (Audited m a db)
unfolding create_task_for_message_and_audit
Audited-endings r m a db = record {
  raises = tt;
  ignores = λ reason. ignored-Audited m a db (decided ignore reason 0);
  leaves_open = λ reason n. ignored-Audited m a db (decided ambiguous reason n);
  reuses = λ d task w h. inr (w, refl);
  revises = λ t c h. attached-Audited r m a db t 1 "source_revision" "source_revision";
  reads_back = λ t h. read_back-Audited r m a db t;
  yields = λ t w h. yielded-Audited m a db t;
  matches = λ c w h. attached-Audited r m a db c.task _ c.matched_by "deterministic_shortcut";
  bursts = λ t w h. attached-Audited r m a db t _ "burst_window" "burst_window";
  starts = λ d t db' w n u h. inl (created-Audited r m a db db' d t h);
}

-- Whatever the message and the tables: if `route` ends normally, it wrote exactly one audit, with the
-- decision that it gives, the message and its revision; or it wrote nothing at all, and then an audit
-- of this revision was there before.
pub route-Audited :
    (r : Router) (m : NormalizedMessage) (a : Arrival) (db : TaskDb)
    → Audited m a db (route r m a db)
route-Audited r m a db = route-Endings r m a db (Audited-endings r m a db)

-- What a route may do to actions and approvals: nothing, unless the owner took a task over.
abbrev pub SparesActions : NormalizedMessage → TaskDb → Routed → Type 0
SparesActions m db none = Unit
SparesActions m db (some (res, db')) =
    (db'.store.messages ≡ db.store.messages)
    × (((db'.store.actions ≡ db.store.actions) × (db'.store.approvals ≡ db.store.approvals))
        ⊎ ((is_owner_message m.sender_role ≡ true)
            × ((t : TaskRecord) × (res.decision ≡ owner_answers t))))

created-SparesActions :
    (r : Router) (m : NormalizedMessage) (a : Arrival) (db db' : TaskDb) (d : RouteDecision)
    (t : TaskRecord)
    → create_task_for_message_and_audit r.texts m a.watch_until a.agent_working_dir a.clock db
      ≡ some ((d, t), db')
    → SparesActions m db (on_task t (d, db'))
unfolding record_routing_audit
created-SparesActions r m a db db' d t h =
    created_elim (λ x. SparesActions m db (on_task x.0.1 (x.0.0, x.1))) r.texts m a.watch_until
      a.agent_working_dir a.clock db ((d, t), db') h
      (λ s u.
        let row = new_row r.texts db.next_task_id s m a.watch_until a.agent_working_dir a.clock in
        let l = insert_task-IsLocal row m db in (l.messages, inl (l.actions, l.approvals)))

SparesActions-endings :
    (r : Router) (m : NormalizedMessage) (a : Arrival) (db : TaskDb)
    → Endings r m a db (SparesActions m db)
unfolding audit create_task_for_message_and_audit attach_message_to_task_and_audit
    record_agent_message_for_task_and_audit close_task_for_owner_takeover_and_audit
    close_task_for_owner_takeover record_routing_audit
SparesActions-endings r m a db = record {
  raises = tt;
  ignores = λ reason. (refl, inl (refl, refl));
  leaves_open = λ reason n. (refl, inl (refl, refl));
  reuses = λ d task w h. (refl, inl (refl, refl));
  revises = λ t c h.
      let l = attach-IsLocal r.texts t.id m a.watch_until a.clock db in
      (l.messages, inl (l.actions, l.approvals));
  reads_back = λ t h.
      let l = record_agent-IsLocal r.texts t.id m a.watch_until a.clock db in
      (l.messages, inl (l.actions, l.approvals));
  yields = λ t w h. (refl, inr (w, (t, refl)));
  matches = λ c w h.
      let l = attach-IsLocal r.texts c.task.id m a.watch_until a.clock db in
      (l.messages, inl (l.actions, l.approvals));
  bursts = λ t w h.
      let l = attach-IsLocal r.texts t.id m a.watch_until a.clock db in
      (l.messages, inl (l.actions, l.approvals));
  starts = λ d t db' w n u h. created-SparesActions r m a db db' d t h;
}

-- Routing a message changes no message, and no action and no approval either, unless the owner wrote
-- the message and took a task over with it.
pub route-SparesActions :
    (r : Router) (m : NormalizedMessage) (a : Arrival) (db : TaskDb)
    → SparesActions m db (route r m a db)
route-SparesActions r m a db = route-Endings r m a db (SparesActions-endings r m a db)
