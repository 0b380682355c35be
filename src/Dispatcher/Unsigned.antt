-- ===== src/Dispatcher/Unsigned.antt =====
-- dispatcher.py: what _call_send makes of one action at two moments differs in the identity only.
use feishu_shadow_agent.Prelude.{
  String, Bool, true, false, not, ◌||◌, ◌==◌, string_eq, if◌then◌else◌, Option, none, some, ◌≡◌,
  refl, subst,
}
use feishu_shadow_agent.Types.{ActionRecord, ActionKind, send_reply, owner_notification}
use feishu_shadow_agent.Store.{payload_send_text}
use feishu_shadow_agent.Dispatcher.{
  Env, State, Request, reply_message, owner_card, owner_message, payload_identity,
  target_message_id, local_error,
}
use feishu_shadow_agent.Dispatcher.Send.{
  Identity, stop, send_as, addressed, Prepared, call_for, answered, prepare, prepare_kind, reply_to,
  send_identity,
}

-- A request without the identity as which it is sent.
abbrev pub unsigned : Request → Request
unsigned (reply_message identity target text) = reply_message "" target text
unsigned (owner_card card) = owner_card card
unsigned (owner_message text) = owner_message text

-- two preparations that have no other request than these
abbrev Agree : Prepared → Prepared → Type 0
Agree (answered r) p = Unit
Agree (call_for a) (answered r) = Unit
Agree (call_for a) (call_for b) = unsigned a ≡ unsigned b

addressed-Agree :
    (target text : String) (i j : Identity)
    → Agree (addressed target text i) (addressed target text j)
addressed-Agree target text (stop r) j = tt
addressed-Agree target text (send_as i) (stop r) = tt
addressed-Agree target text (send_as i) (send_as j) = refl

same-Agree : (p : Prepared) → Agree p p
same-Agree (answered r) = tt
same-Agree (call_for a) = refl

choose-Agree :
    (b : Bool) (p q q' : Prepared) → Agree q q' → Agree (if b then p else q) (if b then p else q')
choose-Agree true p q q' h = same-Agree p
choose-Agree false p q q' h = h

reply-Agree :
    (env : Env) (s s' : State) (action : ActionRecord) (target : Option String)
    → Agree (reply_to env s action target) (reply_to env s' action target)
reply-Agree env s s' action none = tt
reply-Agree env s s' action (some target) =
    choose-Agree (text == "") (answered (local_error env action "send_reply text is missing"))
      (if unknown then refused else identified s) (if unknown then refused else identified s')
      (choose-Agree unknown refused (identified s) (identified s') (
        addressed-Agree target text (send_identity env s action identity)
          (send_identity env s' action identity)))
  where
    text : String
    text = payload_send_text action.payload

    identity : String
    identity = payload_identity action

    unknown : Bool
    unknown = not (identity == "user" || identity == "bot")

    refused : Prepared
    refused = answered (local_error env action "send_reply identity must be user or bot")

    identified : State → Prepared
    identified s = addressed target text (send_identity env s action identity)

kind-Agree :
    (env : Env) (s s' : State) (action : ActionRecord) (k : ActionKind)
    → Agree (prepare_kind env s action k) (prepare_kind env s' action k)
unfolding prepare_kind
kind-Agree env s s' action send_reply = reply-Agree env s s' action (target_message_id action)
kind-Agree env s s' action owner_notification = same-Agree _

pub prepare-unsigned :
    (env : Env) (s s' : State) (action : ActionRecord) (a b : Request)
    → prepare env s action ≡ call_for a
    → prepare env s' action ≡ call_for b
    → unsigned a ≡ unsigned b
unfolding prepare
prepare-unsigned env s s' action a b h h' =
    subst (Agree (call_for a)) h'
      (subst (λ p. Agree p (prepare env s' action)) h (kind-Agree env s s' action action.kind))
