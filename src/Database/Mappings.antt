-- ===== src/Database/Mappings.antt =====
-- processors/database/repositories.py: `MappingRepository`.
pub mod Find
pub mod Store
pub mod Refines
pub mod Promise
use orders_agent.Base.{
  ℕ, Bool, true, false, Option, none, some, List, [], ◌∷◌, ◌++◌, if◌then◌else◌, is_some,
}
use orders_agent.Base.Text.{Text, text_beq, text_eq}
use orders_agent.Base.Dict.{Dict, lookup, insert, contains}
use orders_agent.Database.Models.{Mapping, Database}
use orders_agent.Database.Rows.{find_row, update_rows, where_rows}

-- Target, article and black list.
abbrev pub Match : Type 0
Match = Option Text × Option Text × Bool

abbrev pub match_of : Mapping → Match
match_of m = (m.target, m.article, m.black_list)

abbrev pub has_source : Text → Mapping → Bool
has_source s m = text_beq m.source s

abbrev pub found : Option Mapping → Option Match
found none = none
found (some m) = some (match_of m)

unfoldable pub find : Text → List Mapping → Option Match
find s ms = found (find_row (has_source s) ms)

abbrev pub text_elem : Text → List Text → Bool
text_elem s [] = false
text_elem s (t ∷ ts) = if text_beq t s then true else text_elem s ts

-- The dict comprehension over the rows that the query returns, from the dict `d` on.
unfoldable pub rows_dict : Dict Text (Option Match) → List Mapping → Dict Text (Option Match)
rows_dict d [] = d
rows_dict d (m ∷ ms) = rows_dict (insert m.source (some (match_of m)) d) ms

-- The loop that adds `None` for each source that is not there.
unfoldable pub add_missing : List Text → Dict Text (Option Match) → Dict Text (Option Match)
add_missing [] d = d
add_missing (s ∷ ss) d = add_missing ss (if contains s d then d else insert s none d)

-- The result of an empty list of sources is the empty dict in both branches.
unfoldable pub batch_find : List Text → List Mapping → Dict Text (Option Match)
unfolding rows_dict add_missing
batch_find [] ms = []
batch_find (s ∷ ss) ms =
    add_missing (s ∷ ss) (rows_dict [] (where_rows (λ m. text_elem m.source (s ∷ ss)) ms))

-- `session.add`: a source that is there already violates the primary key and raises.
unfoldable pub add : Mapping → List Mapping → Option (List Mapping)
add m ms = if is_some (find_row (has_source m.source) ms) then none else some (ms ++ m ∷ [])

-- SQL's `coalesce` of two columns.
abbrev pub coalesce : Option Text → Option Text → Option Text
coalesce (some a) b = some a
coalesce none b = b

abbrev pub merge : Mapping → Mapping → Mapping
merge excluded old = record old {
  target = coalesce excluded.target old.target;
  article = coalesce excluded.article old.article;
  black_list = excluded.black_list;
}

-- `INSERT ... ON CONFLICT (source) DO UPDATE`, one row.
unfoldable pub upsert : Mapping → List Mapping → List Mapping
upsert m [] = m ∷ []
upsert m (x ∷ xs) = if text_beq x.source m.source then merge m x ∷ xs else x ∷ upsert m xs

unfoldable pub upsert_all : List Mapping → List Mapping → List Mapping
unfolding upsert
upsert_all [] ms = ms
upsert_all (i ∷ is) ms = upsert_all is (upsert i ms)

-- `accepts` is whether the database takes the statement; `none` is the exception.
unfoldable pub batch_add :
    (List Mapping → Bool) → List Mapping → List Mapping → Option (List Mapping)
unfolding upsert_all
batch_add accepts items ms = if accepts items then some (upsert_all items ms) else none

abbrev keep_or {ℓ} : {A : Type ℓ} → Option A → A → A
keep_or none old = old
keep_or (some v) old = v

abbrev keep_text : Option Text → Option Text → Option Text
keep_text none old = old
keep_text (some v) old = some v

unfoldable pub update :
    Text → Option Text → Option Text → Option Bool → List Mapping → List Mapping × Bool
update s target article black_list ms =
    if is_some (find_row (has_source s) ms)
    then (
      update_rows (has_source s)
          (λ m. record m {
            target = keep_text target m.target;
            article = keep_text article m.article;
            black_list = keep_or black_list m.black_list;
          })
          ms,
      true,
    )
    else (ms, false)

abbrev other_source : Text → Mapping → Bool
other_source s m = if text_beq m.source s then false else true

unfoldable pub delete : Text → List Mapping → List Mapping × Bool
delete s ms =
    if is_some (find_row (has_source s) ms)
    then (where_rows (other_source s) ms, true)
    else (ms, false)
