-- ===== src/Processing/Features/Tables.antt =====
-- processors/classify/features.py: the count of `extract_files_features`.
use orders_agent.Base.{
  ◌||◌, ℕ, suc, ◌+◌, ◌<◌, ◌≡◌, ◌≢◌, refl, sym, ap, ◌∙◌, ◌↔◌, ◌⊎◌, true, false, some, List, [], ◌∷◌,
  ◌++◌, arith, Bool-cases, Option-cases, inl, inr,
}
use mathlib.Core.Path.{subst}
use mathlib.Core.Bool.{false≢true}
use orders_agent.Base.Lists.{All}
use orders_agent.Base.Text.{Text, codes, text_beq, text_beq_iff}
use orders_agent.Processing.Features.{
  suffix_from, is_table_name, FileFeatures, count_files, extract_files_features,
}
use orders_agent.Processing.Features.Suffix.{
  AtEnd, IsLower, InLine, suffix_end-Ends, suffix_from-Found, suffix_from-fresh,
}

-- A file name with a point, `xls` or `xlsx` behind it, and something in one line before it.
pub record IsTableName (file : Text) : Type 0 where
  pub stem : Text
  pub kind : Text
  pub tail : Text
  pub name : file ≡ stem ++ 46 ∷ (kind ++ tail)
  pub not_empty : stem ≢ []
  pub line : All InLine stem
  pub table : (kind ≡ codes "xls") ⊎ (kind ≡ codes "xlsx")
  pub at_end : AtEnd tail

kind_text :
    (t : Text)
    → (text_beq t (codes "xls") || text_beq t (codes "xlsx")) ≡ true
    → (t ≡ codes "xls") ⊎ (t ≡ codes "xlsx")
kind_text t h = elim (Bool-cases (text_beq t (codes "xls"))) [
  | inl e ↦ inl ((text_beq_iff t (codes "xls")).0 e)
  | inr e ↦ inr ((text_beq_iff t (codes "xlsx")).0 (rw e at h))
]

table_sound : (file : Text) → is_table_name file ≡ true → IsTableName file
unfolding is_table_name
table_sound file h = elim (Option-cases (suffix_from false file)) [
  | inl gone ↦ absurd (false≢true (rw (is_table_name, gone) at h))
  | inr (t, there) ↦
      let f = suffix_from-Found false file t there in
      let e = suffix_end-Ends f.rest t f.suffix in
      record {
        stem = f.stem;
        kind = t;
        tail = e.tail;
        name = f.split ∙ ap (λ x. f.stem ++ 46 ∷ x) e.split;
        not_empty = f.started refl;
        line = f.line;
        table = kind_text t (rw (is_table_name, there) at h);
        at_end = e.at_end;
      }
]

table_complete : (file : Text) → IsTableName file → is_table_name file ≡ true
unfolding is_table_name text_beq
table_complete file h = by_kind h.table
  where
    by_suffix :
        (c : ℕ) (t : Text)
        → h.kind ≡ c ∷ t
        → All IsLower (c ∷ t)
        → suffix_from false file ≡ some (c ∷ t)
    by_suffix c t e low =
        ap (suffix_from false) (h.name ∙ ap (λ x. h.stem ++ 46 ∷ (x ++ h.tail)) e)
        ∙ suffix_from-fresh h.stem c t h.tail h.not_empty h.line low h.at_end

    by_kind : (h.kind ≡ codes "xls") ⊎ (h.kind ≡ codes "xlsx") → is_table_name file ≡ true
    by_kind (inl e) =
        rw (is_table_name, by_suffix 120 (codes "ls") e (refl, (refl, (refl, tt)))) refl
    by_kind (inr e) =
        rw (is_table_name, by_suffix 120 (codes "lsx") e (refl, (refl, (refl, (refl, tt))))) refl

-- How many of the texts have the property.
pub data Counts (P : Text → Type 0) : List Text → ℕ → Type 0 where
  no_more : Counts P [] 0
  counted : {x : Text} {xs : List Text} {n : ℕ} → P x → Counts P xs n → Counts P (x ∷ xs) (suc n)
  passed : {x : Text} {xs : List Text} {n : ℕ} → ¬ P x → Counts P xs n → Counts P (x ∷ xs) n

-- The loop, and the flag that goes with the count.
count_files-Counts :
    (files : List Text) (f : FileFeatures)
    → (f.has_xlsx ≡ true) ↔ (0 < f.xlsx_count)
    → (((count_files files f).has_xlsx ≡ true) ↔ (0 < (count_files files f).xlsx_count))
      × (n : ℕ) × ((count_files files f).xlsx_count ≡ n + f.xlsx_count)
      × Counts IsTableName files n
unfolding count_files
count_files-Counts [] f h = (h, 0, omega arith, no_more)
count_files-Counts (file ∷ files) f h = elim (Bool-cases (is_table_name file)) [
  | inl table ↦
      let (flag, n, count, all) =
        count_files-Counts files (record { xlsx_count = f.xlsx_count + 1; has_xlsx = true })
          (λ e. omega arith, λ k. refl) in
      rw (count_files, table)
        (flag, suc n, omega (arith, count), counted (table_sound file table) all)
  | inr other ↦
      let (flag, n, count, all) = count_files-Counts files f h in
      rw (count_files, other)
        (flag, n, count, passed (λ table. false≢true (sym other ∙ table_complete file table)) all)
]

-- The feature `xlsx_count` is the number of the files whose name ends in `.xls` or `.xlsx`, with
-- something in one line before the point, and at most a line feed behind it; and `has_xlsx` is set
-- just where there is one.
pub extract_files_features-Counts :
    (files : List Text)
    → Counts IsTableName files (extract_files_features files).xlsx_count
      × (((extract_files_features files).has_xlsx ≡ true)
          ↔ (0 < (extract_files_features files).xlsx_count))
unfolding extract_files_features
extract_files_features-Counts files =
    let (flag, n, count, all) =
      count_files-Counts files (record { xlsx_count = 0; has_xlsx = false })
        (λ e. cc, λ k. absurd (omega (arith, k))) in
    (subst (Counts IsTableName files) (omega (arith, count)) all, flag)
