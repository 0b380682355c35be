-- ===== src/Json.antt =====
-- JSON values, as `json.loads` gives them to the code: the dictionaries of action payloads
-- (`payload_json`), of dispatch results (`result_json`) and of command output (`json_data`).
-- A dictionary is its list of entries, read by the first entry of a key; floats do not occur in them.
pub mod Laws
use feishu_shadow_agent.Prelude.{
  ℕ, zero, suc, String, Bool, true, false, not, Option, none, some, List, [], ◌∷◌, ◌==◌,
  if◌then◌else◌, string_eq,
}

mutual
  pub data Json : Type 0 where
    null : Json
    bool : Bool → Json
    int : ℕ → Json
    negative : ℕ → Json
    str : String → Json
    arr : Items → Json
    obj : Fields → Json

  pub data Items : Type 0 where
    nil : Items
    cons : Json → Items → Items

  pub data Fields : Type 0 where
    end : Fields
    field : String → Json → Fields → Fields

-- d.get(key)
unfoldable pub get : String → Fields → Option Json
get k end = none
get k (field j v d) = if j == k then some v else get k d

-- d[key] = value
unfoldable pub put : String → Json → Fields → Fields
put k v end = field k v end
put k v (field j w d) = if j == k then field k v d else field j w (put k v d)

-- {**d, **e}: the entries of `e` are written over those of `d`
unfoldable pub merge : Fields → Fields → Fields
merge d end = d
merge d (field k v e) = merge (put k v d) e

-- bool(value)
abbrev pub truthy : Json → Bool
truthy null = false
truthy (bool b) = b
truthy (int zero) = false
truthy (int (suc n)) = true
truthy (negative n) = true
truthy (str s) = not (s == "")
truthy (arr nil) = false
truthy (arr (cons x xs)) = true
truthy (obj end) = false
truthy (obj (field k v d)) = true

-- d.get(key) in a Boolean context: a missing key reads as None
abbrev pub get_or_null : String → Fields → Json
get_or_null k d = elim (get k d) [ none ↦ null | some v ↦ v ]

-- value or other
abbrev pub or_else : Json → Json → Json
or_else v w = if truthy v then v else w

-- value if isinstance(value, str) and value else None
abbrev pub nonempty_text : Json → Option String
nonempty_text (str s) = if s == "" then none else some s
nonempty_text _ = none

-- value if isinstance(value, str) else ""
abbrev pub text_or_empty : Json → String
text_or_empty (str s) = s
text_or_empty _ = ""

abbrev pub to_list : Items → List Json
to_list nil = []
to_list (cons x xs) = x ∷ to_list xs

abbrev pub of_texts : List String → Items
of_texts [] = nil
of_texts (s ∷ ss) = cons (str s) (of_texts ss)
