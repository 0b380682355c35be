-- ===== src/Routing/Safety.antt =====
-- Which messages start work, and on which task.
use feishu_shadow_agent.Prelude.{
  true, false, Option, none, some, is_empty, nat_eq, string_eq, ◌≡◌, ◌⊎◌, refl, inl, inr,
}
use feishu_shadow_agent.Types.{
  TaskRecord, RouteDecision, RouteName, NormalizedMessage, new_task, attach_task,
}
use feishu_shadow_agent.Tasks.{TaskDb}
use feishu_shadow_agent.Tasks.Related.{get_related_closed_tasks}
use feishu_shadow_agent.Tasks.Create.{
  unique_short_id-free, created_elim, create_task_for_message_and_audit, is_taken,
}
use feishu_shadow_agent.Tasks.Attach.{
  attach_message_to_task_and_audit, record_agent_message_for_task_and_audit,
}
use feishu_shadow_agent.Tasks.Takeover.{close_task_for_owner_takeover_and_audit}
use feishu_shadow_agent.Routing.{Router, Arrival, Routed, is_session_route, audit, on_task}
use feishu_shadow_agent.Routing.Candidates.{collect}
use feishu_shadow_agent.Routing.Route.{route, is_routed_again}
use feishu_shadow_agent.Routing.Cases.{Endings, IsWork, since_of, route-Endings}
use feishu_shadow_agent.Routing.Chosen.{
  IsTarget, deterministic_match-IsTarget, burst_attach_match-IsTarget,
}

-- The message goes to a task of its chat that is watched, or starts one because there is none and none
-- was closed lately.
abbrev pub IsPlaced :
    Router → NormalizedMessage → Arrival → TaskDb → RouteName → TaskRecord → Type 0
IsPlaced r m a db route t =
    ((route ≡ attach_task) × IsTarget m a.now t)
    ⊎ ((route ≡ new_task)
        × ((t.chat_id ≡ m.chat_id)
            × ((is_taken db.tasks t.short_id ≡ false)
                × ((is_empty (collect db m a.now) ≡ true)
                    × (is_empty (get_related_closed_tasks r.texts db m (since_of r a)) ≡ true)))))

-- If a route leads to a task session, then the message is external, is not for everybody, and is placed.
abbrev pub CarefulAs :
    Router → NormalizedMessage → Arrival → TaskDb → RouteName → Option TaskRecord → Type 0
CarefulAs r m a db route task =
    (is_session_route route ≡ false)
    ⊎ ((is_routed_again m a db ≡ true)
        ⊎ ((a.revision_changed ≡ true)
            ⊎ (IsWork m × ((t : TaskRecord) × (task ≡ some t) × IsPlaced r m a db route t))))

abbrev pub Careful : Router → NormalizedMessage → Arrival → TaskDb → Routed → Type 0
Careful r m a db none = Unit
Careful r m a db (some (res, db')) = CarefulAs r m a db res.decision.route res.task

placed-CarefulAs :
    (r : Router) (m : NormalizedMessage) (a : Arrival) (db : TaskDb) (route : RouteName)
    (t : TaskRecord)
    → IsWork m
    → IsPlaced r m a db route t
    → CarefulAs r m a db route (some t)
placed-CarefulAs r m a db route t w p = inr (inr (inr (w, (t, refl, p))))

created-Careful :
    (r : Router) (m : NormalizedMessage) (a : Arrival) (db db' : TaskDb) (d : RouteDecision)
    (t : TaskRecord)
    → IsWork m
    → is_empty (collect db m a.now) ≡ true
    → is_empty (get_related_closed_tasks r.texts db m (since_of r a)) ≡ true
    → create_task_for_message_and_audit r.texts m a.watch_until a.agent_working_dir a.clock db
      ≡ some ((d, t), db')
    → Careful r m a db (on_task t (d, db'))
created-Careful r m a db db' d t w n u h =
    created_elim (λ x. Careful r m a db (on_task x.0.1 (x.0.0, x.1))) r.texts m a.watch_until
      a.agent_working_dir a.clock db ((d, t), db') h
      (λ s f.
        placed-CarefulAs r m a db new_task _ w
          (inr (refl, (refl, (unique_short_id-free r.texts db.tasks m.message_id s f, (n, u))))))

Careful-endings :
    (r : Router) (m : NormalizedMessage) (a : Arrival) (db : TaskDb)
    → Endings r m a db (Careful r m a db)
unfolding audit attach_message_to_task_and_audit record_agent_message_for_task_and_audit
    close_task_for_owner_takeover_and_audit
Careful-endings r m a db = record {
  raises = tt;
  ignores = λ reason. inl refl;
  leaves_open = λ reason n. inl refl;
  reuses = λ d task w h. inr (inl w);
  revises = λ t c h. inr (inr (inl c));
  reads_back = λ t h. inl refl;
  yields = λ t w h. inl refl;
  matches = λ c w h.
      placed-CarefulAs r m a db attach_task c.task w
        (inl (refl, deterministic_match-IsTarget db m a.now c h));
  bursts = λ t w h.
      placed-CarefulAs r m a db attach_task t w
        (inl (refl, burst_attach_match-IsTarget r.burst_attach_seconds db m a.now t h));
  starts = λ d t db' w n u h. created-Careful r m a db db' d t w n u h;
}

-- Whatever `route` gives for a message that is new in this revision and is not an edit: if it leads to
-- a task session, then the message is from neither the agent nor the owner and does not address
-- everybody; and its task is in the message's chat and watched now, or it is a new one under a short id
-- that no task has, when no task that is watched and none closed lately is about the message.
pub route-Careful :
    (r : Router) (m : NormalizedMessage) (a : Arrival) (db : TaskDb)
    → Careful r m a db (route r m a db)
route-Careful r m a db = route-Endings r m a db (Careful-endings r m a db)
