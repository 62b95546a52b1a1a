-- ===== src/Processing/Handlers/Returns.antt =====
-- processors/main.py: which exceptions leave the work on an attachment.
use mathlib.Core.Path.{subst}
use mathlib.Core.Bool.{false≢true}
use orders_agent.Base.{
  some_inj, none-some, ◌≡◌, refl, ◌∙◌, Bool, true, false, ◌||◌, Option, none, some, List, [], ◌∷◌,
  ◌++◌, arith, Option-cases, Bool-cases, inl, inr, if◌then◌else◌, is_some,
}
use orders_agent.Base.Lists.{All}
use orders_agent.Base.Text.{Text, text_beq, text_beq_iff, text_eq}
use orders_agent.Base.Dict.{Dict, insert}
use orders_agent.Materials.Tree.{Result, ok, err}
use orders_agent.Materials.Parser.{ParseResults, delimeters, parse}
use orders_agent.Database.Models.{Answer, Task, Document, Mapping, Database}
use orders_agent.Database.Mappings.{Match, text_elem}
use orders_agent.Database.Mappings.Find.{UniqueSources}
use orders_agent.Table.Sheet.{TableParseResults}
use orders_agent.Table.Workbook.{Sheet, make_request_xlsx, make_callculation_xlsx}
use orders_agent.Processing.{Services, Stored, requests, articles}
use orders_agent.Processing.Documents.{
  tables, read_document, unique_materials, Known, learn, parse_materials, search_materials,
  append_matches, add_set,
}
use orders_agent.Processing.Documents.Questions.{Among, PartsAmong, search_materials_complete}
use orders_agent.Processing.Handlers.Excel.{
  Progress, Save, save_both, put_both, save_request, save_calculation, match_and_save,
  process_document,
}

-- The parts of all materials are among the unique parts.
abbrev pub IsKnown : Known → Type 0
IsKnown k = All (PartsAmong k.parts) k.materials

elem-append : (p : Text) (s t : List Text) → text_elem p (s ++ t) ≡ (text_elem p s || text_elem p t)
elem-append p [] t = refl
elem-append p (x ∷ s) t = ground (arith, elem-append p s t)

elem-add_set :
    (p : Text) (ts s : List Text) → text_elem p (add_set ts s) ≡ (text_elem p ts || text_elem p s)
unfolding add_set
elem-add_set p [] s = refl
elem-add_set p (t ∷ ts) s =
    elem-add_set p ts (if text_elem t s then s else s ++ t ∷ [])
    ∙ ground (arith, elem-append p s (t ∷ []), text_beq_iff t p)

All-add_set : (ps ts s : List Text) → All (Among s) ps → All (Among (add_set ts s)) ps
All-add_set [] ts s h = tt
All-add_set (p ∷ ps) ts s h = (ground (arith, elem-add_set p ts s, h.0), All-add_set ps ts s h.1)

All-self : (ps ts s : List Text) → All (Among ts) ps → All (Among (add_set ts s)) ps
All-self [] ts s h = tt
All-self (p ∷ ps) ts s h = (ground (arith, elem-add_set p ts s, h.0), All-self ps ts s h.1)

All-cons : (p : Text) (ps ts : List Text) → All (Among ts) ps → All (Among (p ∷ ts)) ps
All-cons p [] ts h = tt
All-cons p (q ∷ ps) ts h = (ground (arith, h.0), All-cons p ps ts h.1)

All-refl : (ps : List Text) → All (Among ps) ps
All-refl [] = tt
All-refl (p ∷ ps) = (ground (arith, text_beq_iff p p), All-cons p ps ps (All-refl ps))

wider :
    (ts s : List Text) (ms : Dict Text ParseResults)
    → All (PartsAmong s) ms
    → All (PartsAmong (add_set ts s)) ms
wider ts s [] h = tt
wider ts s ((m, r) ∷ ms) h = (All-add_set r.parts ts s h.0, wider ts s ms h.1)

inserted :
    (parts : List Text) (m : Text) (r : ParseResults) (ms : Dict Text ParseResults)
    → All (Among parts) r.parts
    → All (PartsAmong parts) ms
    → All (PartsAmong parts) (insert m r ms)
unfolding insert
inserted parts m r [] h k = (h, tt)
inserted parts m r ((n, q) ∷ ms) h k = by_case (text_beq n m) (inserted parts m r ms h k.1)
  where
    by_case :
        (b : Bool)
        → All (PartsAmong parts) (insert m r ms)
        → All (PartsAmong parts) (if b then (n, r) ∷ ms else (n, q) ∷ insert m r ms)
    by_case true i = (h, k.1)
    by_case false i = (k.0, i)

learn-IsKnown : (m : Text) (r : ParseResults) (k : Known) → IsKnown k → IsKnown (learn m r k)
learn-IsKnown m r k h =
    inserted (add_set r.parts k.parts) m r k.materials
      (All-self r.parts r.parts k.parts (All-refl r.parts)) (wider r.parts k.parts k.materials h)

parse_materials-IsKnown :
    (ms : List Text) (k k' : Known) → IsKnown k → parse_materials ms k ≡ some k' → IsKnown k'
unfolding parse_materials
parse_materials-IsKnown [] k k' h e = subst IsKnown (some_inj e) h
parse_materials-IsKnown (m ∷ ms) k k' h e =
    by_parse (parse m delimeters) refl
      (λ r e'. parse_materials-IsKnown ms (learn m r k) k' (learn-IsKnown m r k h) e')
  where
    by_parse :
        (r : Result ParseResults)
        → parse m delimeters ≡ r
        → ((r : ParseResults) → parse_materials ms (learn m r k) ≡ some k' → IsKnown k')
        → IsKnown k'
    by_parse (err x) e' next = absurd (none-some (rw (parse_materials, e') at e))
    by_parse (ok r) e' next = next r (rw (parse_materials, e') at e)

-- `save` takes the workbooks that are made of these tables.
pub record SavesBooks (svc : Services) (res : List TableParseResults) : Type 0 where
  pub request :
      (elements : Dict Text ParseResults) (sheets : List Sheet)
      → make_request_xlsx svc.int_float svc.legal res elements ≡ some (some sheets)
      → svc.can_save (requests sheets) ≡ true
  pub calculation :
      (elements : Dict Text ParseResults) (sheet : Sheet)
      → make_callculation_xlsx svc.int_float svc.legal res elements ≡ some (some sheet)
      → svc.can_save (articles sheet) ≡ true

-- A saving of the workbooks that raises nothing.
Returns : List TableParseResults → Save → Type 0
Returns res save = (filename : Option Text) (p : Progress) → (save filename res p).1 ≡ false

save_request-Returns :
    (svc : Services) (res : List TableParseResults)
    → SavesBooks svc res
    → Returns res (save_request svc)
unfolding save_request Returns
save_request-Returns svc res books filename p =
    elim (Option-cases (make_request_xlsx svc.int_float svc.legal res p.known.materials)) [
      | inl e ↦ rw (save_request, e) refl
      | inr (none, e) ↦ rw (save_request, e) refl
      | inr (some sheets, e) ↦
          rw (save_request, e, books.request p.known.materials sheets e)
            (elim (Bool-cases (svc.can_put filename)) [
              | inl yes_ ↦ rw yes_ refl
              | inr no_ ↦ rw no_ refl
            ])
    ]

put_both-returns :
    (svc : Services) (filename : Option Text) (a b : Stored) (p : Progress)
    → (put_both svc filename a b p).1 ≡ false
put_both-returns svc filename a b p = elim (Bool-cases (svc.can_put filename)) [
  | inl yes_ ↦ elim (Bool-cases (svc.can_put (svc.articles_name filename))) [
    | inl yes2 ↦ rw (yes_, yes2) refl
    | inr no2 ↦ rw (yes_, no2) refl
  ]
  | inr no_ ↦ rw no_ refl
]

save_calculation-Returns :
    (svc : Services) (res : List TableParseResults)
    → SavesBooks svc res
    → Returns res (save_calculation svc)
unfolding save_calculation Returns
save_calculation-Returns svc res books filename p =
    elim (Option-cases (make_request_xlsx svc.int_float svc.legal res p.known.materials)) [
      | inl e ↦ rw (save_calculation, e) refl
      | inr (wb, e) ↦
          elim (Option-cases
            (make_callculation_xlsx svc.int_float svc.legal res p.known.materials)) [
              | inl e2 ↦ rw (save_calculation, e, e2) refl
              | inr (wb2, e2) ↦ rw (save_calculation, e, e2) (by_books wb wb2 e e2)
            ]
    ]
  where
    by_books :
        (wb : Option (List Sheet)) (wb2 : Option Sheet)
        → make_request_xlsx svc.int_float svc.legal res p.known.materials ≡ some wb
        → make_callculation_xlsx svc.int_float svc.legal res p.known.materials ≡ some wb2
        → (save_both svc filename wb wb2 p).1 ≡ false
    by_books none wb2 e e2 = refl
    by_books (some sheets) none e e2 = refl
    by_books (some sheets) (some sheet) e e2 =
        rw (books.request p.known.materials sheets e, books.calculation p.known.materials sheet e2)
          (put_both-returns svc filename (requests sheets) (articles sheet) p)

match_and_save-Returns :
    (save : Save) (filename : Option Text) (res : List TableParseResults) (p : Progress)
    (m : Dict Text Match × Dict Text Answer)
    → Returns res save
    → (m.1 ≡ [] → is_some (append_matches m.0 p.known.materials) ≡ true)
    → (match_and_save save filename res p m).1 ≡ false
unfolding match_and_save Returns
match_and_save-Returns save filename res p (ms, q ∷ qs) saves quiet = refl
match_and_save-Returns save filename res p (ms, []) saves quiet =
    elim (Option-cases (append_matches ms p.known.materials)) [
      | inl e ↦ absurd (false≢true (rw e at (quiet refl)))
      | inr (materials, e) ↦ rw (match_and_save, e) (saves filename _)
    ]

complete :
    (o : Option (Dict Text Answer)) (k : Known) (ms : List Mapping)
    → o ≡ none
    → UniqueSources ms
    → IsKnown k
    → (search_materials o k.parts ms).1 ≡ []
    → is_some (append_matches (search_materials o k.parts ms).0 k.materials) ≡ true
complete none k ms e u h = search_materials_complete k.parts ms k.materials u h
complete (some d) k ms e u h = cc

document-Returns :
    (svc : Services) (save : Save) (t : Task) (db : Database) (doc : Document) (p : Progress)
    (res : List TableParseResults) (known : Known)
    → Returns res save
    → t.manual_decision ≡ none
    → UniqueSources db.mappings
    → IsKnown p.known
    → read_document svc doc.minio_object_key ≡ tables res
    → parse_materials (unique_materials res []) p.known ≡ some known
    → (process_document svc save t db doc p).1 ≡ false
unfolding process_document
document-Returns svc save t db doc p res known saves free u h read parsed =
    rw (process_document, read)
      (rw (process_document, parsed)
        (match_and_save-Returns save doc.minio_object_key res (record p { known = known })
          (search_materials t.manual_decision known.parts db.mappings) saves
          (complete t.manual_decision known db.mappings free u
            (parse_materials-IsKnown (unique_materials res []) p.known known h parsed))))

-- An attachment is handled without an exception, whether or not the making of the workbooks raises
-- and whatever the storage answers, where there is no manual decision, the tables could be read and
-- their materials parse, the parts of the materials so far are among the unique parts, and `save`
-- takes the workbooks that are made of these tables.
pub process_document-returns :
    (svc : Services) (t : Task) (db : Database) (doc : Document) (p : Progress)
    (res : List TableParseResults) (known : Known)
    → t.manual_decision ≡ none
    → UniqueSources db.mappings
    → IsKnown p.known
    → read_document svc doc.minio_object_key ≡ tables res
    → parse_materials (unique_materials res []) p.known ≡ some known
    → SavesBooks svc res
    → ((process_document svc (save_request svc) t db doc p).1 ≡ false)
      × ((process_document svc (save_calculation svc) t db doc p).1 ≡ false)
process_document-returns svc t db doc p res known free u h read parsed books = (
  document-Returns svc (save_request svc) t db doc p res known (save_request-Returns svc res books)
      free u h read parsed,
  document-Returns svc (save_calculation svc) t db doc p res known
      (save_calculation-Returns svc res books) free u h read parsed,
)
