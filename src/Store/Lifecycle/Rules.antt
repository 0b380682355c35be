-- ===== src/Store/Lifecycle/Rules.antt =====
-- The rules by which the updates and the branches of an operation keep to a diagram.
use feishu_shadow_agent.Prelude.{
  nat_eq, string_eq, Bool, true, false, List, ◌≡◌, arith, update_where, Bool-cases, inl, inr,
  if◌then◌else◌,
}
use feishu_shadow_agent.Types.{ActionStatus, ActionRecord}
use feishu_shadow_agent.Store.{Db}
use feishu_shadow_agent.Store.Moves.{Relation, Moves, Moves-refl, Moves-update}
use feishu_shadow_agent.Store.Lifecycle.{automatic}

pub automatic_refl : (s : ActionStatus) → automatic s s ≡ true
automatic_refl s = ground arith

-- an UPDATE of the rows with an id whose status passes a test
pub update-Moves :
    (e : Relation) (p : ActionRecord → Bool) (f : ActionRecord → ActionRecord)
    (rows : List ActionRecord)
    → ((r : ActionRecord) → (f r).id ≡ r.id)
    → ((r : ActionRecord) → (f r).kind ≡ r.kind)
    → ((r : ActionRecord) → (f r).idempotency_key ≡ r.idempotency_key)
    → ((r : ActionRecord) → e r.status (if p r then f r else r).status ≡ true)
    → Moves e rows (update_where p f rows)
update-Moves e p f rows hi hk hx he =
    Moves-update e p f hi
      (λ r. record {
        id = if_same p r (λ (x : ActionRecord). x.id) (hi r);
        kind = if_same p r (λ (x : ActionRecord). x.kind) (hk r);
        key = if_same p r (λ (x : ActionRecord). x.idempotency_key) (hx r);
        status = he r;
      })
      rows
  where
    if_same :
        {B : Type 0} (q : ActionRecord → Bool) (r : ActionRecord) (g : ActionRecord → B)
        → g (f r) ≡ g r
        → g (if q r then f r else r) ≡ g r
    if_same q r g h = elim (Bool-cases (q r)) [ inl t ↦ rw t h | inr t ↦ rw t ]

-- An operation's result and store, of which the actions have moved.
pub record Ends {A : Type 0} (e : Relation) (rows : List ActionRecord) (x : A × Db) : Type 0 where
  pub moves : Moves e rows x.1.actions

-- The rule for a conditional: its result is given with the equation that it stands for.
pub Ends-if :
    {e : Relation} {rows : List ActionRecord} {A : Type 0} (b : Bool) {x y z : A × Db}
    → z ≡ (if b then x else y)
    → Ends e rows x
    → Ends e rows y
    → Ends e rows z
Ends-if true h hx hy = rw h hx
Ends-if false h hx hy = rw h hy

pub Ends-stay : {A : Type 0} (db : Db) (a : A) → Ends {A = A} automatic db.actions (a, db)
Ends-stay db a = record { moves = Moves-refl automatic automatic_refl db.actions }

pub Ends-update :
    {A : Type 0} (db : Db) (a : A) {rows : List ActionRecord}
    → Moves automatic db.actions rows
    → Ends {A = A} automatic db.actions (a, record db { actions = rows })
Ends-update db a m = record { moves = m }
