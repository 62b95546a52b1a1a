-- ===== src/Processing/Documents/Questions.antt =====
-- Which parts are asked for, and that without a question every part has a match.
use orders_agent.Base.{
  ◌≡◌, refl, sym, ap, ◌∙◌, Bool, true, false, Option, none, some, List, [], ◌∷◌, arith,
  if◌then◌else◌, is_some, inl, inr,
}
use orders_agent.Base.Lists.{All}
use orders_agent.Base.Text.{Text, text_beq_iff, text_eq}
use orders_agent.Base.Dict.{
  Dict, lookup, insert, contains, lookup-insert, UniqueKeys, UniqueKeys-insert,
}
use orders_agent.Materials.Parser.{ParseResults}
use orders_agent.Database.Models.{Answer, Mapping}
use orders_agent.Database.Rows.{where_rows}
use orders_agent.Database.Rows.Order.{In}
use orders_agent.Database.Mappings.{
  Match, match_of, find, text_elem, rows_dict, add_missing, batch_find,
}
use orders_agent.Database.Mappings.Find.{UniqueSources, lookup-batch_find}
use orders_agent.Processing.Documents.{
  unanswered, find_questions, matches_of, manual_matches, search_materials, lookup_parts,
  append_matches,
}

UniqueKeys-rows_dict :
    (d : Dict Text (Option Match)) (ms : List Mapping) → UniqueKeys d → UniqueKeys (rows_dict d ms)
unfolding rows_dict
UniqueKeys-rows_dict d [] u = u
UniqueKeys-rows_dict d (m ∷ ms) u =
    UniqueKeys-rows_dict (insert m.source (some (match_of m)) d) ms
      (UniqueKeys-insert m.source (some (match_of m)) d u)

UniqueKeys-add_missing :
    (ss : List Text) (d : Dict Text (Option Match)) → UniqueKeys d → UniqueKeys (add_missing ss d)
unfolding add_missing
UniqueKeys-add_missing [] d u = u
UniqueKeys-add_missing (s ∷ ss) d u =
    UniqueKeys-add_missing ss (if contains s d then d else insert s none d) (one (contains s d))
  where
    one : (b : Bool) → UniqueKeys (if b then d else insert s none d)
    one true = u
    one false = UniqueKeys-insert s none d u

UniqueKeys-batch_find : (ss : List Text) (ms : List Mapping) → UniqueKeys (batch_find ss ms)
unfolding batch_find
UniqueKeys-batch_find [] ms = tt
UniqueKeys-batch_find (s ∷ ss) ms =
    UniqueKeys-add_missing (s ∷ ss) (rows_dict [] rows) (UniqueKeys-rows_dict [] rows tt)
  where
    rows : List Mapping
    rows = where_rows (λ m. text_elem m.source (s ∷ ss)) ms

-- The question for a part, by its match: one without a match, and one on the black list.
abbrev pub question_for : Option Match → Option Answer
question_for none = some (unanswered false)
question_for (some (target, article, bl)) = if bl then some (unanswered true) else none

abbrev overriding : Option (Option Match) → Option Answer → Option Answer
overriding none old = old
overriding (some m) old = elim (question_for m) [ none ↦ old | some a ↦ some a ]

lookup-find_questions :
    (s : Text) (d : Dict Text (Option Match)) (q : Dict Text Answer)
    → UniqueKeys d
    → lookup s (find_questions d q) ≡ overriding (lookup s d) (lookup s q)
unfolding find_questions lookup
lookup-find_questions s [] q u = refl
lookup-find_questions s ((k, none) ∷ d) q u = ground (
  arith,
  lookup-find_questions s d (insert k (unanswered false) q) u.1,
  lookup-insert k s (unanswered false) q,
  text_beq_iff k s,
  u.0,
)
lookup-find_questions s ((k, some (target, article, true)) ∷ d) q u = ground (
  arith,
  lookup-find_questions s d (insert k (unanswered true) q) u.1,
  lookup-insert k s (unanswered true) q,
  text_beq_iff k s,
  u.0,
)
lookup-find_questions s ((k, some (target, article, false)) ∷ d) q u =
    ground (arith, lookup-find_questions s d q u.1, text_beq_iff k s, u.0)

-- Without a manual decision, the questions are for exactly the parts of the materials that have
-- no mapping, and for those on the black list, marked so.
pub lookup-questions :
    (s : Text) (parts : List Text) (ms : List Mapping)
    → UniqueSources ms
    → let (matches, questions) = search_materials none parts ms in
      lookup s questions ≡ (if text_elem s parts then question_for (find s ms) else none)
unfolding search_materials lookup
lookup-questions s parts ms u =
    lookup-find_questions s (batch_find parts ms) [] (UniqueKeys-batch_find parts ms)
    ∙ rw (lookup-batch_find s parts ms u) (by_case (text_elem s parts) (find s ms))
  where
    by_case :
        (b : Bool) (o : Option Match)
        → overriding (if b then some o else none) none ≡ (if b then question_for o else none)
    by_case b o = ground arith

abbrev known_match : Option (Option Match) → Option Match
known_match none = none
known_match (some m) = m

lookup-matches_of :
    (s : Text) (d : Dict Text (Option Match))
    → UniqueKeys d
    → lookup s (matches_of d) ≡ known_match (lookup s d)
unfolding matches_of lookup
lookup-matches_of s [] u = refl
lookup-matches_of s ((k, none) ∷ d) u =
    ground (arith, lookup-matches_of s d u.1, text_beq_iff k s, u.0)
lookup-matches_of s ((k, some m) ∷ d) u =
    ground (arith, lookup-matches_of s d u.1, text_beq_iff k s, u.0)

-- The part is one of the unique parts.
abbrev pub Among : List Text → Text → Type 0
Among parts p = text_elem p parts ≡ true

abbrev pub PartsAmong : List Text → Text × ParseResults → Type 0
PartsAmong parts (m, r) = All (Among parts) r.parts

module _ (d : Dict Text Match) (parts : List Text)
    (there : (p : Text) → Among parts p → is_some (lookup p d) ≡ true) where
  lookup_parts-some : (ps : List Text) → All (Among parts) ps → is_some (lookup_parts d ps) ≡ true
  unfolding lookup_parts
  lookup_parts-some [] h = refl
  lookup_parts-some (p ∷ ps) h = ground (arith, there p h.0, lookup_parts-some ps h.1)

  append_matches-some :
      (ms : Dict Text ParseResults)
      → All (PartsAmong parts) ms
      → is_some (append_matches d ms) ≡ true
  unfolding append_matches
  append_matches-some [] h = refl
  append_matches-some ((m, r) ∷ ms) h =
      ground (arith, lookup_parts-some r.parts h.0, append_matches-some ms h.1)

answered_of : (o : Option Match) → question_for o ≡ none → is_some o ≡ true
answered_of none h = cc
answered_of (some m) h = refl

-- Without a manual decision, and without a question, every part of the materials has its match:
-- `matches[part]` raises no `KeyError`.
pub search_materials_complete :
    (parts : List Text) (ms : List Mapping) (materials : Dict Text ParseResults)
    → UniqueSources ms
    → All (PartsAmong parts) materials
    → (search_materials none parts ms).1 ≡ []
    → is_some (append_matches (search_materials none parts ms).0 materials) ≡ true
unfolding search_materials lookup
search_materials_complete parts ms materials u h quiet =
    append_matches-some (search_materials none parts ms).0 parts there materials h
  where
    no_question : (s : Text) → Among parts s → question_for (find s ms) ≡ none
    no_question s a = rw a at (sym (lookup-questions s parts ms u)) ∙ ap (lookup s) quiet

    there :
        (s : Text) → Among parts s → is_some (lookup s (search_materials none parts ms).0) ≡ true
    there s a =
        ap is_some (
          lookup-matches_of s (batch_find parts ms) (UniqueKeys-batch_find parts ms)
          ∙ ap known_match (rw a at (lookup-batch_find s parts ms u)))
        ∙ answered_of (find s ms) (no_question s a)

pub lookup-manual :
    (part : Text) (d : Dict Text Answer)
    → lookup part d ≡ none
    → lookup part (manual_matches d) ≡ none
unfolding lookup manual_matches
lookup-manual part [] h = refl
lookup-manual part ((k, a) ∷ d) h = ground (arith, lookup-manual part d)

lookup_parts-none :
    (d : Dict Text Match) (part : Text) (ps : List Text)
    → lookup part d ≡ none
    → text_elem part ps ≡ true
    → lookup_parts d ps ≡ none
unfolding lookup_parts
lookup_parts-none d part [] gone h = cc
lookup_parts-none d part (p ∷ ps) gone h =
    ground (arith, lookup_parts-none d part ps gone, text_beq_iff p part)

-- A part without a match among the parts of any material makes `matches[part]` raise.
pub append_matches-none :
    (d : Dict Text Match) (part material : Text) (r : ParseResults) (ms : Dict Text ParseResults)
    → lookup part d ≡ none
    → text_elem part r.parts ≡ true
    → In (material, r) ms
    → append_matches d ms ≡ none
unfolding append_matches
append_matches-none d part material r [] gone there i = absurd i
append_matches-none d part material r ((m, q) ∷ ms) gone there (inl e) =
    let missing =
      lookup_parts-none d part q.parts gone (ap (λ x. text_elem part x.1.parts) (sym e) ∙ there) in
    rw (append_matches, missing) refl
append_matches-none d part material r ((m, q) ∷ ms) gone there (inr i) =
    ground (arith, append_matches-none d part material r ms gone there i)
