-- ===== src/Web/Listing/Values.antt =====
-- frontend/mail-client/app/services/queue.py: the JSON values that the listing meets. `loads` is
-- `json.loads` on a text, with none where it raises; a value that is no text makes it raise.
use orders_agent.Base.{ℕ, Bool, Option, none, some, List, [], ◌∷◌}
use orders_agent.Base.Text.{Text, codes, text_beq}
use orders_agent.Base.{if◌then◌else◌}
use orders_agent.Database.Models.{Json, null, num, bool, str, answer, JsonObject}

mutual
  pub data Value : Type 0 where
    py_none : Value
    py_num : ℕ → Value
    py_bool : Bool → Value
    py_str : Text → Value
    py_list : ValueList → Value
    py_dict : Fields → Value

  pub data ValueList : Type 0 where
    nil : ValueList
    item : Value → ValueList → ValueList

  pub data Fields : Type 0 where
    end : Fields
    field : Text → Value → Fields → Fields

-- `dict.get`
unfoldable pub get_field : Text → Fields → Option Value
get_field k end = none
get_field k (field n v fs) = if text_beq n k then some v else get_field k fs

module _ (loads : Text → Option Value) where
  abbrev loads_value : Value → Option Value
  loads_value (py_str s) = loads s
  loads_value _ = none

  -- `isinstance(v, dict)`, with the dict.
  abbrev pub as_dict : Option Value → Option Fields
  as_dict (some (py_dict fs)) = some fs
  as_dict _ = none

  abbrev and_dict : Option Fields → List Fields → List Fields
  and_dict none rest = rest
  and_dict (some fs) rest = fs ∷ rest

  abbrev item_dict : Value → Option Fields
  item_dict (py_dict fs) = some fs
  item_dict v = as_dict (loads_value v)

  -- The loop over a list: dicts stay, texts are read.
  unfoldable pub list_docs : ValueList → List Fields
  list_docs nil = []
  list_docs (item v vs) = and_dict (item_dict v) (list_docs vs)

  -- `[d for d in parsed if isinstance(d, dict)]`
  unfoldable pub only_dicts : ValueList → List Fields
  only_dicts nil = []
  only_dicts (item v vs) = and_dict (as_dict (some v)) (only_dicts vs)

  unfoldable pub parsed_docs : Option Value → List Fields
  unfolding only_dicts
  parsed_docs (some (py_list vs)) = only_dicts vs
  parsed_docs (some (py_dict fs)) = fs ∷ []
  parsed_docs _ = []

  unfoldable pub normalize_documents : Value → List Fields
  unfolding list_docs parsed_docs
  normalize_documents (py_list vs) = list_docs vs
  normalize_documents (py_str s) = parsed_docs (loads s)
  normalize_documents (py_dict fs) = fs ∷ []
  normalize_documents _ = []

  -- `task_output`: a dict or a list, the empty dict for anything else.
  abbrev or_empty_dict : Option Value → Value
  or_empty_dict (some (py_dict fs)) = py_dict fs
  or_empty_dict (some (py_list vs)) = py_list vs
  or_empty_dict _ = py_dict end

  unfoldable pub task_output : Value → Value
  task_output (py_str s) = or_empty_dict (loads s)
  task_output v = or_empty_dict (some v)

abbrev or_none : Option Value → Value
or_none none = py_none
or_none (some v) = v

-- `task_output.get(key)`, where it is a dict.
unfoldable pub output_field : Text → Value → Value
unfolding get_field
output_field k (py_dict fs) = or_none (get_field k fs)
output_field k _ = py_none

-- The same values in the database.
abbrev pub text_value : Option Text → Value
text_value none = py_none
text_value (some s) = py_str s

abbrev json_value : Json → Value
json_value null = py_none
json_value (num n) = py_num n
json_value (bool b) = py_bool b
json_value (str s) = py_str s
json_value (answer a) = py_dict (
    field (codes "target") (text_value a.target) (
      field (codes "article") (text_value a.article)
        (field (codes "black-list") (py_bool a.black_list) end)))

abbrev json_fields : JsonObject → Fields
json_fields [] = end
json_fields ((k, v) ∷ rest) = field k (json_value v) (json_fields rest)

abbrev pub object_value : Option JsonObject → Value
object_value none = py_none
object_value (some o) = py_dict (json_fields o)
