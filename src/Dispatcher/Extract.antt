-- ===== src/Dispatcher/Extract.antt =====
-- dispatcher.py: finding the id of the sent message in the client's JSON.
use feishu_shadow_agent.Prelude.{
  String, not, ◌&&◌, Option, none, some, ◌≡◌, ◌≢◌, arith, ◌==◌, if◌then◌else◌, string_eq, option_eq,
  eq_iff, option_text_iff, Option-cases, inl, inr,
}
use feishu_shadow_agent.Json.{
  Json, null, bool, int, negative, str, arr, obj, Items, nil, cons, Fields, end, field, get,
}

abbrev or_found : Json → Json → Json
or_found null other = other
or_found found other = found

abbrev own_or : Option Json → Json → Json
own_or none below = below
own_or (some v) below = v

-- _find_key; None and a JSON null are one
unfoldable mutual
  pub find_key : String → Json → Json
  find_key key null = null
  find_key key (bool b) = null
  find_key key (int n) = null
  find_key key (negative n) = null
  find_key key (str s) = null
  find_key key (arr xs) = find_in_items key xs
  find_key key (obj d) = own_or (get key d) (find_in_fields key d)

  pub find_in_items : String → Items → Json
  find_in_items key nil = null
  find_in_items key (cons x xs) = or_found (find_key key x) (find_in_items key xs)

  pub find_in_fields : String → Fields → Json
  find_in_fields key end = null
  find_in_fields key (field k v d) = or_found (find_key key v) (find_in_fields key d)

abbrev accepted : Option String → Json → Option String
accepted exclude (str s) = if not (s == "") && not (some s == exclude) then some s else none
accepted exclude _ = none

abbrev first_some : Option String → Option String → Option String
first_some none other = other
first_some (some s) other = some s

-- _extract_message_id
unfoldable pub extract_message_id : Json → Option String → Option String
extract_message_id value exclude =
    first_some (accepted exclude (find_key "sent_message_id" value)) (
      first_some (accepted exclude (find_key "sentMessageId" value)) (
        first_some (accepted exclude (find_key "message_id" value))
          (accepted exclude (find_key "messageId" value))))

-- an id that is not empty and not the one to exclude
abbrev IsNew : Option String → String → Type 0
IsNew exclude m = (m ≢ "") × (some m ≢ exclude)

accepted-IsNew :
    (exclude : Option String) (v : Json) (m : String)
    → accepted exclude v ≡ some m
    → IsNew exclude m
accepted-IsNew exclude (str s) m h =
    (λ e. ground (arith, eq_iff s ""), λ e. ground (arith, option_text_iff (some s) exclude))
accepted-IsNew exclude null m h = cc
accepted-IsNew exclude _ m h = cc

first-IsNew :
    (exclude : Option String) (v : Json) (rest : Option String)
    → ((m : String) → rest ≡ some m → IsNew exclude m)
    → (m : String) → first_some (accepted exclude v) rest ≡ some m
    → IsNew exclude m
first-IsNew exclude v rest later m h = elim (Option-cases (accepted exclude v)) [
  | inl e ↦ later m (rw e at h)
  | inr (x, e) ↦ accepted-IsNew exclude v m (cc (e, let h' : some x ≡ some m = rw e at h in h'))
]

-- The id that is taken from the client's answer is never empty, and never that of the message
-- which the reply answers, which the client's answer also names.
pub extract_message_id_new :
    (value : Json) (exclude : Option String) (m : String)
    → extract_message_id value exclude ≡ some m
    → (m ≢ "") × (some m ≢ exclude)
unfolding extract_message_id
extract_message_id_new value exclude = first-IsNew exclude (find_key "sent_message_id" value) _ (
    first-IsNew exclude (find_key "sentMessageId" value) _ (
      first-IsNew exclude (find_key "message_id" value) _
        (accepted-IsNew exclude (find_key "messageId" value))))
