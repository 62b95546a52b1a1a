-- ===== src/Processing/Documents.antt =====
-- processors/main.py: the work on one attachment, which `process_request_excel` and
-- `process_calculation_excel` share up to the saving of the workbooks. A set is the list of its
-- members in the order in which they came.
pub mod Questions
use orders_agent.Base.{
  ℕ, Bool, true, false, Option, none, some, List, [], ◌∷◌, ◌++◌, if◌then◌else◌, is_some,
}
use orders_agent.Base.Text.{Text, codes, text_eq}
use orders_agent.Base.Dict.{Dict, lookup, insert}
use orders_agent.Materials.Tree.{Result, ok, err}
use orders_agent.Materials.Parser.{ParseResults, delimeters, parse}
use orders_agent.Database.Models.{Answer, Mapping}
use orders_agent.Database.Mappings.{Match, text_elem, batch_find}
use orders_agent.Table.Sheet.{TableParseResults, no_rows, simple_parser}
use orders_agent.Table.Open.{open_and_clean}
use orders_agent.Processing.{Services}

-- The tables of an attachment, or the text that goes into `file_errors`.
pub data Read : Type 0 where
  file_error : Text → Read
  tables : List TableParseResults → Read

abbrev parsed : Option (List TableParseResults) → Read
parsed none = file_error (codes "Невозможно применить парсер.")
parsed (some rs) = tables rs

unfoldable pub read_document : Services → Option Text → Read
unfolding open_and_clean simple_parser
read_document svc filename = elim (svc.get_object filename) [
  | none ↦ file_error (codes "Ошибка доступа к файлу")
  | some file_data ↦ elim (open_and_clean svc.text_lib svc.loaders file_data filename) [
    | none ↦ file_error (codes "Ошибка при открытии файла (формат не xls/xlsx или файл повреждён)")
    | some opened ↦ elim opened [
      | none ↦ file_error (codes "Ошибка чтения файла (файл повреждён или пустой)")
      | some sheets ↦ elim sheets [
        | [] ↦ file_error (codes "Ошибка чтения файла (файл повреждён или пустой)")
        | t ∷ ts ↦ parsed (simple_parser (some (t ∷ ts)))
      ]
    ]
  ]
]

-- `s |= set(texts)`
unfoldable pub add_set : List Text → List Text → List Text
add_set [] s = s
add_set (t ∷ ts) s = add_set ts (if text_elem t s then s else s ++ t ∷ [])

-- `table.material` is there, since `empty` tests it.
abbrev material_of : TableParseResults → List Text
material_of r = elim r.material [ none ↦ [] | some ms ↦ ms ]

unfoldable pub unique_materials : List TableParseResults → List Text → List Text
unfolding add_set
unique_materials [] s = s
unique_materials (r ∷ rs) s =
    unique_materials rs (if no_rows r then s else add_set (material_of r) s)

-- `unique_materials_dict` and `unique_parts`.
pub record Known : Type 0 where
  pub materials : Dict Text ParseResults
  pub parts : List Text

abbrev pub learn : Text → ParseResults → Known → Known
learn m r k = record { materials = insert m r k.materials; parts = add_set r.parts k.parts }

-- The loop over the unique materials; an exception of the parser is none.
unfoldable pub parse_materials : List Text → Known → Option Known
unfolding parse add_set
parse_materials [] k = some k
parse_materials (m ∷ ms) k = elim (parse m delimeters) [
  | err e ↦ none
  | ok r ↦ parse_materials ms (learn m r k)
]

abbrev pub unanswered : Bool → Answer
unanswered bl = record { target = none; article = none; black_list = bl }

-- `local_questions`
unfoldable pub find_questions : Dict Text (Option Match) → Dict Text Answer → Dict Text Answer
find_questions [] q = q
find_questions ((part, none) ∷ d) q = find_questions d (insert part (unanswered false) q)
find_questions ((part, some (target, article, bl)) ∷ d) q =
    find_questions d (if bl then insert part (unanswered true) q else q)

-- The matches by part, less the `None`s, of which there are none without a question.
unfoldable pub matches_of : Dict Text (Option Match) → Dict Text Match
matches_of [] = []
matches_of ((part, none) ∷ d) = matches_of d
matches_of ((part, some m) ∷ d) = (part, m) ∷ matches_of d

-- The dict comprehension over `manual_decision`.
unfoldable pub manual_matches : Dict Text Answer → Dict Text Match
manual_matches [] = []
manual_matches ((part, a) ∷ d) = (part, (a.target, a.article, a.black_list)) ∷ manual_matches d

-- `matches` and `local_questions`.
unfoldable pub search_materials :
    Option (Dict Text Answer) → List Text → List Mapping → Dict Text Match × Dict Text Answer
unfolding batch_find manual_matches matches_of find_questions
search_materials (some decision) parts ms = (manual_matches decision, [])
search_materials none parts ms =
    let found = batch_find parts ms in (matches_of found, find_questions found [])

-- `matches[part]` for each part; a missing key is none.
unfoldable pub lookup_parts : Dict Text Match → List Text → Option (List Match)
lookup_parts d [] = some []
lookup_parts d (p ∷ ps) = elim (lookup p d) [
  | none ↦ none
  | some m ↦ elim (lookup_parts d ps) [ none ↦ none | some ms ↦ some (m ∷ ms) ]
]

-- The loop that appends the matches to every material, those of earlier files too.
unfoldable pub append_matches :
    Dict Text Match → Dict Text ParseResults → Option (Dict Text ParseResults)
unfolding lookup_parts
append_matches d [] = some []
append_matches d ((m, r) ∷ rest) = elim (lookup_parts d r.parts) [
  | none ↦ none
  | some ms ↦ elim (append_matches d rest) [
    | none ↦ none
    | some rest' ↦ some ((m, record r { matches = r.matches ++ ms }) ∷ rest')
  ]
]

-- `questions.update(local_questions)`
unfoldable pub update_dict {ℓ} : {V : Type ℓ} → Dict Text V → Dict Text V → Dict Text V
update_dict [] d = d
update_dict ((k, v) ∷ rest) d = update_dict rest (insert k v d)
