-- ===== src/Database/Mappings/Promise.antt =====
-- `MappingRepository` keeps its promise, call after call.
use mathlib.Core.Path.{fun_ext, subst}
use orders_agent.Base.{
  ◌≡◌, refl, ap, ◌∙◌, Bool, Option, List, [], ◌∷◌, Bool-cases, Option-cases, inl, inr,
}
use orders_agent.Base.Text.{Text}
use orders_agent.Database.Models.{Mapping}
use orders_agent.Database.Rows.{find_row}
use orders_agent.Database.Mappings.{
  match_of, has_source, found, find, add, batch_add, update, delete,
}
use orders_agent.Database.Mappings.Find.{UniqueSources, UniqueSources-upsert_all}
use orders_agent.Database.Mappings.Store.{
  Command, add_one, add_batch, change, remove, Said, Store, view, promised, call, and_then,
  call_all, promised_all,
}
use orders_agent.Database.Mappings.Refines.{
  patched, UniqueSources-change, UniqueSources-remove, UniqueSources-append, find-append,
  find-change, find-remove, find-put_all,
}

-- The table stands for the function, and the calls have said the same.
abbrev pub Refines : {S : Type 0} → List Mapping × S → Store × S → Type 0
Refines (ms, said) (v, said') = (view ms ≡ v) × (said ≡ said') × UniqueSources ms

module _ (accepts : List Mapping → Bool) (ms : List Mapping) (u : UniqueSources ms) where
  add-Refines :
      (m : Mapping) → Refines (call accepts (add_one m) ms) (promised accepts (add_one m) (view ms))
  unfolding call promised add find
  add-Refines m = elim (Option-cases (find_row (has_source m.source) ms)) [
    | inl e ↦ rw e (fun_ext (λ k. find-append k m ms e), refl, UniqueSources-append m ms e u)
    | inr (x, e) ↦ rw e (refl, refl, u)
  ]

  batch-Refines :
      (items : List Mapping)
      → Refines (call accepts (add_batch items) ms) (promised accepts (add_batch items) (view ms))
  unfolding call promised batch_add
  batch-Refines items = elim (Bool-cases (accepts items)) [
    | inl e ↦ rw e (find-put_all items ms, refl, UniqueSources-upsert_all items ms u)
    | inr e ↦ rw e (refl, refl, u)
  ]

  change-Refines :
      (s : Text) (t a : Option Text) (b : Option Bool)
      → Refines (call accepts (change s t a b) ms) (promised accepts (change s t a b) (view ms))
  unfolding call promised update find
  change-Refines s t a b = elim (Option-cases (find_row (has_source s) ms)) [
    | inl e ↦ rw e (refl, refl, u)
    | inr (x, e) ↦ rw e (
      fun_ext (λ k. find-change s k t a b ms (match_of x) (ap found e)),
      refl,
      UniqueSources-change s (patched t a b) (λ m. refl) ms u,
    )
  ]

  remove-Refines :
      (s : Text) → Refines (call accepts (remove s) ms) (promised accepts (remove s) (view ms))
  unfolding call promised delete find
  remove-Refines s = elim (Option-cases (find_row (has_source s) ms)) [
    | inl e ↦ rw e (refl, refl, u)
    | inr (x, e) ↦ rw e (fun_ext (λ k. find-remove s k ms), refl, UniqueSources-remove s ms u)
  ]

  call-Refines : (c : Command) → Refines (call accepts c ms) (promised accepts c (view ms))
  call-Refines (add_one m) = add-Refines m
  call-Refines (add_batch items) = batch-Refines items
  call-Refines (change s t a b) = change-Refines s t a b
  call-Refines (remove s) = remove-Refines s

-- A call that says the same and leaves what stands for the same function, then the rest.
and_then-Refines :
    (said said' : Said) (r : List Mapping × List Said) (p q : Store × List Said)
    → said ≡ said'
    → Refines r p
    → p ≡ q
    → Refines (and_then said r) (and_then said' q)
and_then-Refines said said' r p q same (viewed, rest, u) e =
    subst (λ x. Refines (and_then said r) (and_then said' x)) e
      (viewed, (ap (λ s. s ∷ r.1) same ∙ ap (λ l. said' ∷ l) rest), u)

-- Every call of `add`, `batch_add`, `update` and `delete` on a table without two rows of a source
-- leaves a table that stands for the function which the promises of these calls give, and each
-- call returns or raises as promised: `find` cannot tell the table from the function. No source
-- gets two rows.
pub call_all-promised_all :
    (accepts : List Mapping → Bool) (cs : List Command) (ms : List Mapping)
    → UniqueSources ms
    → Refines (call_all accepts cs ms) (promised_all accepts cs (view ms))
unfolding call_all promised_all
call_all-promised_all accepts [] ms u = (refl, refl, u)
call_all-promised_all accepts (c ∷ cs) ms u =
    let here = call-Refines accepts ms u c in
    let ms' = (call accepts c ms).0 in
    and_then-Refines (call accepts c ms).1 (promised accepts c (view ms)).1
      (call_all accepts cs ms') (promised_all accepts cs (view ms'))
      (promised_all accepts cs (promised accepts c (view ms)).0) here.1
      (call_all-promised_all accepts cs ms' here.2) (ap (promised_all accepts cs) here.0)
