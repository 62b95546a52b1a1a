-- ===== src/Examples/Mails.antt =====
-- The features of a short text, and of two file names.
use orders_agent.Base.{◌<◌, ◌≤◌, ◌+◌, ◌*◌, ◌≡◌, ◌↔◌, refl, true, List, [], ◌∷◌}
use orders_agent.Base.Text.{Text, codes}
use orders_agent.Base.Text.Pattern.{HasRun}
use orders_agent.Database.Rows.{where_rows}
use orders_agent.Processing.Features.{
  extract_text_features, is_table_name, suffix_from, suffix_end, extract_files_features,
}
use orders_agent.Processing.Features.Found.{invoice_number-HasRun, word_count-bounds}
use orders_agent.Processing.Features.Tables.{IsTableName, Counts, extract_files_features-Counts}
use orders_agent.Base.Text.{text_beq}
use orders_agent.Examples.Sheets.{exact}

abbrev invoice : Text
invoice = codes "Счёт № 12345"

invoice_number-HasRun_example :
    (((extract_text_features exact invoice).invoice_number ≡ true)
      ↔ HasRun 5 exact.is_digit invoice)
    × (HasRun 5 exact.is_digit invoice
        → (extract_text_features exact invoice).is_request_likely ≡ true)
invoice_number-HasRun_example = invoice_number-HasRun exact invoice

abbrev files : List Text
files = codes "order.1.xlsx" ∷ codes "order.XLSX" ∷ codes ".xls" ∷ []

two_names : where_rows is_table_name files ≡ codes "order.1.xlsx" ∷ []
unfolding is_table_name suffix_from suffix_end text_beq where_rows
two_names = refl

extract_files_features-Counts_example :
    Counts IsTableName files (extract_files_features files).xlsx_count
    × (((extract_files_features files).has_xlsx ≡ true)
        ↔ (0 < (extract_files_features files).xlsx_count))
extract_files_features-Counts_example = extract_files_features-Counts files

word_count-bounds_example :
    2 * (extract_text_features exact invoice).word_count
    ≤ (extract_text_features exact invoice).text_length + 1
word_count-bounds_example = word_count-bounds exact invoice
