-- ===== src/Store/Moves.antt =====
-- How the operations change the actions table: every row stays, under its id, kind and idempotency
-- key, and its status moves along a relation.
use feishu_shadow_agent.Prelude.{
  ℕ, Bool, true, some, List, [], ◌∷◌, ◌++◌, ◌≡◌, refl, ◌∙◌, arith, update_where, if◌then◌else◌,
  nat_eq,
}
use feishu_shadow_agent.Types.{ActionStatus, ActionRecord}
use feishu_shadow_agent.Store.{find_action}

abbrev pub Relation : Type 0
Relation = ActionStatus → ActionStatus → Bool

-- A row `b` that stands for the row `a` after an operation.
pub record IsMoved (e : Relation) (a b : ActionRecord) : Type 0 where
  pub id : b.id ≡ a.id
  pub kind : b.kind ≡ a.kind
  pub key : b.idempotency_key ≡ a.idempotency_key
  pub status : e a.status b.status ≡ true

pub record Moves (e : Relation) (rows rows' : List ActionRecord) : Type 0 where
  pub at :
      (i : ℕ) (a : ActionRecord)
      → find_action i rows ≡ some a
      → (b : ActionRecord) × (find_action i rows' ≡ some b) × IsMoved e a b

pub find-update_where :
    (p : ActionRecord → Bool) (f : ActionRecord → ActionRecord)
    → ((r : ActionRecord) → (f r).id ≡ r.id)
    → (i : ℕ) (rows : List ActionRecord) (a : ActionRecord) → find_action i rows ≡ some a
    → find_action i (update_where p f rows) ≡ some (if p a then f a else a)
unfolding update_where
find-update_where p f keep i [] a h = cc
find-update_where p f keep i (r ∷ rows) a h =
    ground (arith, keep r, find-update_where p f keep i rows a)

pub find-append :
    (i : ℕ) (rows more : List ActionRecord) (a : ActionRecord)
    → find_action i rows ≡ some a
    → find_action i (rows ++ more) ≡ some a
find-append i [] more a h = cc
find-append i (r ∷ rows) more a h = ground (arith, find-append i rows more a)

pub find-id :
    (i : ℕ) (rows : List ActionRecord) (a : ActionRecord) → find_action i rows ≡ some a → a.id ≡ i
find-id i [] a h = cc
find-id i (r ∷ rows) a h = ground (arith, find-id i rows a)

pub Moves-refl :
    (e : Relation)
    → ((s : ActionStatus) → e s s ≡ true)
    → (rows : List ActionRecord) → Moves e rows rows
Moves-refl e r rows = record {
  at = λ i a h. (a, h, record { id = refl; kind = refl; key = refl; status = r a.status });
}

pub Moves-append :
    (e : Relation)
    → ((s : ActionStatus) → e s s ≡ true)
    → (rows more : List ActionRecord) → Moves e rows (rows ++ more)
Moves-append e r rows more = record {
  at = λ i a h. (
    a,
    find-append i rows more a h,
    record { id = refl; kind = refl; key = refl; status = r a.status },
  );
}

pub Moves-trans :
    {e : Relation} {rows rows' rows'' : List ActionRecord}
    → ((s t u : ActionStatus) → e s t ≡ true → e t u ≡ true → e s u ≡ true)
    → Moves e rows rows'
    → Moves e rows' rows''
    → Moves e rows rows''
Moves-trans {e} tr m n = record {
  at = λ i a h.
      let (b, hb, mb) = m.at i a h in
      let (c, hc, mc) = n.at i b hb in
      (
        c,
        hc,
        record {
          id = mc.id ∙ mb.id;
          kind = mc.kind ∙ mb.kind;
          key = mc.key ∙ mb.key;
          status = tr a.status b.status c.status mb.status mc.status;
        },
      );
}

pub Moves-weaken :
    {e e' : Relation} {rows rows' : List ActionRecord}
    → ((s t : ActionStatus) → e s t ≡ true → e' s t ≡ true)
    → Moves e rows rows'
    → Moves e' rows rows'
Moves-weaken w m = record {
  at = λ i a h.
      let (b, hb, mb) = m.at i a h in
      (
        b,
        hb,
        record { id = mb.id; kind = mb.kind; key = mb.key; status = w a.status b.status mb.status },
      );
}

-- The rule for an UPDATE: what it does to each row that it selects.
pub Moves-update :
    (e : Relation) (p : ActionRecord → Bool) (f : ActionRecord → ActionRecord)
    → ((r : ActionRecord) → (f r).id ≡ r.id)
    → ((r : ActionRecord) → IsMoved e r (if p r then f r else r))
    → (rows : List ActionRecord) → Moves e rows (update_where p f rows)
Moves-update e p f keep moved rows = record {
  at = λ i a h. (if p a then f a else a, find-update_where p f keep i rows a h, moved a);
}
