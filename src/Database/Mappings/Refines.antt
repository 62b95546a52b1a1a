-- ===== src/Database/Mappings/Refines.antt =====
-- `MappingRepository` keeps its promise.
use mathlib.Core.Path.{fun_ext, subst}
use orders_agent.Base.{
  ◌≡◌, refl, sym, ap, ◌∙◌, Bool, true, false, Option, none, some, List, [], ◌∷◌, ◌++◌, arith,
  none-some, some_inj, Bool-cases, inl, inr, if◌then◌else◌,
}
use orders_agent.Base.Text.{Text, text_beq, text_beq_iff}
use orders_agent.Database.Models.{Mapping}
use orders_agent.Database.Rows.{find_row, update_rows, where_rows}
use orders_agent.Database.Mappings.{
  Match, match_of, has_source, found, find, upsert, upsert_all, keep_or, keep_text, other_source,
}
use orders_agent.Database.Mappings.Find.{UniqueSources, stored, find-upsert}
use orders_agent.Database.Mappings.Store.{view, put, drop_source, patch, put_one, put_all}

find_row-append :
    (k : Text) (m : Mapping) (ms : List Mapping)
    → find_row (has_source k) (ms ++ m ∷ []) ≡ (elim (find_row (has_source k) ms) [
      | none ↦ (if text_beq m.source k then some m else none)
      | some x ↦ some x
    ])
unfolding find_row
find_row-append k m [] = ground arith
find_row-append k m (x ∷ ms) = ground (arith, find_row-append k m ms)

pub find-append :
    (k : Text) (m : Mapping) (ms : List Mapping)
    → find_row (has_source m.source) ms ≡ none
    → find k (ms ++ m ∷ []) ≡ put m.source (match_of m) (view ms) k
unfolding find
find-append k m ms h = elim (Bool-cases (text_beq m.source k)) [
  | inl same ↦
      let e = (text_beq_iff m.source k).0 same in
      let none_ : find_row (has_source k) ms ≡ none =
        subst (λ j. find_row (has_source j) ms ≡ none) e h in
      rw (find_row-append, none_, same) refl
  | inr other ↦ ground (arith, find_row-append k m ms, other)
]

-- A row with another target, article and black list.
abbrev pub patched : Option Text → Option Text → Option Bool → Mapping → Mapping
patched target article black_list m = record m {
  target = keep_text target m.target;
  article = keep_text article m.article;
  black_list = keep_or black_list m.black_list;
}

if_same : (b : Bool) → ◌≡◌ {A = Option Mapping} (if b then none else none) none
if_same true = refl
if_same false = refl

module _ (s : Text) (f : Mapping → Mapping) (keeps : (m : Mapping) → (f m).source ≡ m.source) where
  find_row-change :
      (k : Text) (ms : List Mapping)
      → find_row (has_source k) (update_rows (has_source s) f ms) ≡ (
          if text_beq s k
          then (elim (find_row (has_source k) ms) [ none ↦ none | some m ↦ some (f m) ])
          else find_row (has_source k) ms)
  unfolding find_row update_rows
  find_row-change k [] = ground arith
  find_row-change k (m ∷ ms) = ground (
    arith,
    keeps m,
    find_row-change k ms,
    text_beq_iff s k,
    text_beq_iff m.source s,
    text_beq_iff m.source k,
  )

  pub UniqueSources-change :
      (ms : List Mapping) → UniqueSources ms → UniqueSources (update_rows (has_source s) f ms)
  UniqueSources-change [] u = unfold update_rows in tt
  UniqueSources-change (m ∷ ms) u = next (UniqueSources-change ms u.1)
    where
      next :
          UniqueSources (update_rows (has_source s) f ms)
          → UniqueSources (update_rows (has_source s) f (m ∷ ms))
      next h =
          let gone : find_row (has_source m.source) (update_rows (has_source s) f ms) ≡ none =
            find_row-change m.source ms ∙ rw u.0 (if_same (text_beq s m.source)) in
          elim (Bool-cases (text_beq m.source s)) [
            | inl mine ↦
                unfold update_rows in
                rw mine (
                  subst (λ k. find_row (has_source k) (update_rows (has_source s) f ms) ≡ none)
                      (sym (keeps m)) gone,
                  h,
                )
            | inr other ↦ unfold update_rows in rw other (gone, h)
          ]

module _ (s : Text) where
  find_row-remove :
      (k : Text) (ms : List Mapping)
      → find_row (has_source k) (where_rows (other_source s) ms)
        ≡ (if text_beq s k then none else find_row (has_source k) ms)
  unfolding find_row where_rows
  find_row-remove k [] = ground arith
  find_row-remove k (m ∷ ms) = ground (
    arith,
    find_row-remove k ms,
    text_beq_iff s k,
    text_beq_iff m.source s,
    text_beq_iff m.source k,
  )

  pub UniqueSources-remove :
      (ms : List Mapping) → UniqueSources ms → UniqueSources (where_rows (other_source s) ms)
  UniqueSources-remove [] u = unfold where_rows in tt
  UniqueSources-remove (m ∷ ms) u = next (UniqueSources-remove ms u.1)
    where
      next :
          UniqueSources (where_rows (other_source s) ms)
          → UniqueSources (where_rows (other_source s) (m ∷ ms))
      next h = elim (Bool-cases (text_beq m.source s)) [
        | inl mine ↦ unfold where_rows in rw mine h
        | inr other ↦
            let gone : find_row (has_source m.source) (where_rows (other_source s) ms) ≡ none =
              find_row-remove m.source ms ∙ rw u.0 (if_same (text_beq s m.source)) in
            unfold where_rows in rw other (gone, h)
      ]

find_row-none :
    (k : Text) (x : Mapping) (ms : List Mapping)
    → find_row (has_source k) (x ∷ ms) ≡ none
    → (text_beq x.source k ≡ false) × (find_row (has_source k) ms ≡ none)
find_row-none k x ms h = elim (Bool-cases (text_beq x.source k)) [
  | inl same ↦
      let there : find_row (has_source k) (x ∷ ms) ≡ some x =
        unfold find_row in rw (find_row, same) refl in
      absurd (none-some (sym h ∙ there))
  | inr other ↦
      let next : find_row (has_source k) (x ∷ ms) ≡ find_row (has_source k) ms =
        unfold find_row in rw (find_row, other) refl in
      (other, sym next ∙ h)
]

pub UniqueSources-append :
    (m : Mapping) (ms : List Mapping)
    → find_row (has_source m.source) ms ≡ none
    → UniqueSources ms
    → UniqueSources (ms ++ m ∷ [])
UniqueSources-append m [] h u = unfold find_row in (refl, tt)
UniqueSources-append m (x ∷ ms) h u =
    let (other, rest) = find_row-none m.source x ms h in
    let other_ : text_beq m.source x.source ≡ false =
      ground (arith, other, text_beq_iff x.source m.source, text_beq_iff m.source x.source) in
    (find_row-append x.source m ms ∙ rw (u.0, other_) refl, UniqueSources-append m ms rest u.1)

-- What the view of each method's result is.
pub find-change :
    (s k : Text) (t a : Option Text) (b : Option Bool) (ms : List Mapping) (r : Match)
    → find s ms ≡ some r
    → find k (update_rows (has_source s) (patched t a b) ms) ≡ put s (patch t a b r) (view ms) k
unfolding find
find-change s k t a b ms r h = elim (Bool-cases (text_beq s k)) [
  | inl same ↦
      let e = (text_beq_iff s k).0 same in
      rw (find_row-change s (patched t a b) (λ m. refl) k ms, same)
        (by_row (find_row (has_source k) ms)
          (subst (λ j. found (find_row (has_source j) ms) ≡ some r) e h))
  | inr other ↦ rw (find_row-change s (patched t a b) (λ m. refl) k ms, other) refl
]
  where
    by_row :
        (o : Option Mapping)
        → found o ≡ some r
        → found (elim o [ none ↦ none | some m ↦ some (patched t a b m) ]) ≡ some (patch t a b r)
    by_row none h = absurd (none-some h)
    by_row (some m) h = ap (λ x. some (patch t a b x)) (some_inj h)

pub find-remove :
    (s k : Text) (ms : List Mapping)
    → find k (where_rows (other_source s) ms) ≡ drop_source s (view ms) k
unfolding find
find-remove s k ms = rw find_row-remove (by_case (text_beq s k))
  where
    by_case :
        (b : Bool)
        → found (if b then none else find_row (has_source k) ms)
          ≡ (if b then none else found (find_row (has_source k) ms))
    by_case true = refl
    by_case false = refl

pub find-put_all : (items ms : List Mapping) → view (upsert_all items ms) ≡ put_all items (view ms)
unfolding upsert_all
find-put_all [] ms = refl
find-put_all (i ∷ is) ms =
    find-put_all is (upsert i ms)
    ∙ ap (put_all is) (fun_ext (λ k. find-upsert k i ms ∙ by_source k))
  where
    by_source :
        (k : Text)
        → (if text_beq i.source k then some (stored i (find k ms)) else find k ms)
          ≡ put_one i (view ms) k
    by_source k = elim (Bool-cases (text_beq i.source k)) [
      | inl same ↦
          rw same (ap (λ j. some (stored i (find j ms))) (sym ((text_beq_iff i.source k).0 same)))
      | inr other ↦ rw other refl
    ]
