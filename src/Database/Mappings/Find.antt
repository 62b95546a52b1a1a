-- ===== src/Database/Mappings/Find.antt =====
-- What `batch_find` returns, and what it returns after `batch_add`.
use orders_agent.Base.{
  ◌≡◌, refl, ap, ◌∙◌, Bool, false, Option, none, some, List, [], ◌∷◌, arith, Bool-cases, inl, inr,
  if◌then◌else◌,
}
use orders_agent.Base.Text.{Text, text_beq, text_beq_iff, text_eq}
use orders_agent.Base.Dict.{Dict, lookup, insert, contains, lookup-insert}
use orders_agent.Database.Models.{Mapping}
use orders_agent.Database.Rows.{find_row, where_rows}
use orders_agent.Database.Mappings.{
  Match, match_of, has_source, found, find, text_elem, rows_dict, add_missing, batch_find, coalesce,
  upsert, upsert_all,
}

-- The primary key: no source stands in two rows.
abbrev pub UniqueSources : List Mapping → Type 0
UniqueSources [] = Unit {0}
UniqueSources (m ∷ ms) = (find_row (has_source m.source) ms ≡ none) × UniqueSources ms

-- The row of a source, as the dict holds it.
abbrev entry : Option Mapping → Option (Option Match) → Option (Option Match)
entry none old = old
entry (some m) old = some (some (match_of m))

lookup-rows_dict :
    (s : Text) (d : Dict Text (Option Match)) (ms : List Mapping)
    → UniqueSources ms
    → lookup s (rows_dict d ms) ≡ entry (find_row (has_source s) ms) (lookup s d)
unfolding rows_dict find_row
lookup-rows_dict s d [] u = refl
lookup-rows_dict s d (m ∷ ms) u = ground (
  arith,
  lookup-rows_dict s (insert m.source (some (match_of m)) d) ms u.1,
  lookup-insert m.source s (some (match_of m)) d,
  text_beq_iff m.source s,
  u.0,
)

module _ (sources : List Text) where
  asked : Mapping → Bool
  asked m = text_elem m.source sources

  find_row-asked :
      (s : Text) (ms : List Mapping)
      → find_row (has_source s) (where_rows asked ms)
        ≡ (if text_elem s sources then find_row (has_source s) ms else none)
  unfolding find_row where_rows asked
  find_row-asked s [] = ground arith
  find_row-asked s (m ∷ ms) = ground (arith, find_row-asked s ms, text_beq_iff m.source s)

  UniqueSources-asked : (ms : List Mapping) → UniqueSources ms → UniqueSources (where_rows asked ms)
  UniqueSources-asked [] u = unfold where_rows in tt
  UniqueSources-asked (m ∷ ms) u = kept (UniqueSources-asked ms u.1)
    where
      unseen : find_row (has_source m.source) (where_rows asked ms) ≡ none
      unseen = find_row-asked m.source ms ∙ rw u.0 (ground arith)

      kept : UniqueSources (where_rows asked ms) → UniqueSources (where_rows asked (m ∷ ms))
      kept h = elim (Bool-cases (asked m)) [
        | inl yes_ ↦ unfold where_rows in rw (where_rows, yes_) (unseen, h)
        | inr no_ ↦ unfold where_rows in rw (where_rows, no_) h
      ]

-- A missing source gets `None`, and no other key changes.
abbrev with_none : Bool → Option (Option Match) → Option (Option Match)
with_none asked none = if asked then some none else none
with_none asked (some m) = some m

lookup-add_missing :
    (s : Text) (ss : List Text) (d : Dict Text (Option Match))
    → lookup s (add_missing ss d) ≡ with_none (text_elem s ss) (lookup s d)
unfolding add_missing
lookup-add_missing s [] d = ground arith
lookup-add_missing s (t ∷ ss) d = ground (
  arith,
  lookup-add_missing s ss (if contains t d then d else insert t none d),
  lookup-insert t s none d,
  text_beq_iff t s,
)

answer_of :
    (b : Bool) (r : Option Mapping)
    → with_none b (entry (if b then r else none) none) ≡ (if b then some (found r) else none)
answer_of b r = ground arith

-- `batch_find` has an entry for exactly the sources it is asked for, and the entry of a source is
-- what `find` returns for it.
pub lookup-batch_find :
    (s : Text) (sources : List Text) (ms : List Mapping)
    → UniqueSources ms
    → lookup s (batch_find sources ms) ≡ (if text_elem s sources then some (find s ms) else none)
unfolding batch_find lookup asked find
lookup-batch_find s [] ms u = refl
lookup-batch_find s (t ∷ ss) ms u =
    let rows = where_rows (asked (t ∷ ss)) ms in
    lookup-add_missing s (t ∷ ss) (rows_dict [] rows)
    ∙ ap (with_none (text_elem s (t ∷ ss))) (
        lookup-rows_dict s [] rows (UniqueSources-asked (t ∷ ss) ms u)
        ∙ ap (λ (o : Option Mapping). entry o none) (find_row-asked (t ∷ ss) s ms))
    ∙ answer_of (text_elem s (t ∷ ss)) (find_row (has_source s) ms)

-- The row of `m` after the statement has been run.
abbrev pub stored : Mapping → Option Match → Match
stored m none = match_of m
stored m (some (target, article, black_list)) =
    (coalesce m.target target, coalesce m.article article, m.black_list)

pub find-upsert :
    (s : Text) (m : Mapping) (ms : List Mapping)
    → find s (upsert m ms)
      ≡ (if text_beq m.source s then some (stored m (find s ms)) else find s ms)
unfolding find find_row upsert
find-upsert s m [] = ground arith
find-upsert s m (x ∷ ms) = ground (
  arith,
  find-upsert s m ms,
  text_beq_iff m.source s,
  text_beq_iff x.source s,
  text_beq_iff x.source m.source,
)

-- The answer for a source, after the item that stands in the list for it, if any.
abbrev pub answered : Option Mapping → Option Match → Option Match
answered none old = old
answered (some i) old = some (stored i old)

-- After `batch_add` of items with different sources, `find` returns for a source of the list the
-- item, with the old target and article where the item has none; all other sources are as before.
pub find-upsert_all :
    (s : Text) (items ms : List Mapping)
    → UniqueSources items
    → find s (upsert_all items ms) ≡ answered (find_row (has_source s) items) (find s ms)
find-upsert_all s [] ms u = unfold upsert_all find_row in refl
find-upsert_all s (i ∷ is) ms u = next (find-upsert_all s is (upsert i ms) u.1)
  where
    next :
        find s (upsert_all is (upsert i ms))
          ≡ answered (find_row (has_source s) is) (find s (upsert i ms))
        → find s (upsert_all (i ∷ is) ms) ≡ answered (find_row (has_source s) (i ∷ is)) (find s ms)
    next ih =
        unfold upsert_all find_row in
        ground (arith, ih, find-upsert s i ms, text_beq_iff i.source s, u.0)

find_row-upsert :
    (k : Text) (m : Mapping) (ms : List Mapping)
    → text_beq m.source k ≡ false
    → find_row (has_source k) ms ≡ none
    → find_row (has_source k) (upsert m ms) ≡ none
unfolding find_row upsert
find_row-upsert k m [] h e = ground arith
find_row-upsert k m (x ∷ ms) h e = ground (arith, find_row-upsert k m ms h)

-- An upsert keeps the primary key.
pub UniqueSources-upsert :
    (m : Mapping) (ms : List Mapping) → UniqueSources ms → UniqueSources (upsert m ms)
UniqueSources-upsert m [] u = unfold upsert find_row in (refl, tt)
UniqueSources-upsert m (x ∷ ms) u = next (UniqueSources-upsert m ms u.1)
  where
    next : UniqueSources (upsert m ms) → UniqueSources (upsert m (x ∷ ms))
    next h = elim (Bool-cases (text_beq x.source m.source)) [
      | inl same ↦ unfold upsert in rw (upsert, same) u
      | inr other ↦
          unfold upsert in
          rw (upsert, other)
            (
              find_row-upsert x.source m ms
                  (ground (arith, text_beq_iff x.source m.source, text_beq_iff m.source x.source))
                  u.0,
              h,
            )
    ]

pub UniqueSources-upsert_all :
    (items ms : List Mapping) → UniqueSources ms → UniqueSources (upsert_all items ms)
unfolding upsert_all
UniqueSources-upsert_all [] ms u = u
UniqueSources-upsert_all (i ∷ is) ms u =
    UniqueSources-upsert_all is (upsert i ms) (UniqueSources-upsert i ms u)
