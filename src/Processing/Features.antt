-- ===== src/Processing/Features.antt =====
-- processors/classify/features.py: the features that the classifier is given. `\s` and `split` go by
-- `is_space`; `\d` and `lower` are those of `TextLib`.
pub mod Words
pub mod Found
pub mod Suffix
pub mod Tables
use orders_agent.Base.{
  ℕ, suc, ◌+◌, Bool, true, false, not, ◌&&◌, ◌||◌, Option, none, some, List, [], ◌∷◌, ◌==◌, leb,
  ltb, if◌then◌else◌,
}
use orders_agent.Base.Lists.{length}
use orders_agent.Base.Text.{Text, codes, text_beq, strip, is_space}
use orders_agent.Base.Text.Pattern.{Item, one, opt, many, times, search_text}
use orders_agent.Table.Cell.{TextLib}
use Words.{
  request_words, calc_words, price_deadline_words, question_words, invoice_words,
  request_form_words,
}

-- `word in text`
abbrev starts_with : Text → Text → Bool
starts_with [] s = true
starts_with (w ∷ ws) [] = false
starts_with (w ∷ ws) (c ∷ s) = w == c && starts_with ws s

unfoldable pub contains_word : Text → Text → Bool
contains_word w [] = starts_with w []
contains_word w (c ∷ s) = starts_with w (c ∷ s) || contains_word w s

-- `check_any`
unfoldable pub check_any : List Text → Text → Bool
unfolding contains_word
check_any [] s = false
check_any (w ∷ ws) s = contains_word w s || check_any ws s

-- The class of one character.
abbrev is_char : ℕ → ℕ → Bool
is_char c d = c == d

abbrev pub is_number_sign : ℕ → Bool
is_number_sign = is_char 8470

abbrev literal : Text → List Item → List Item
literal [] is = is
literal (c ∷ s) is = one (is_char c) ∷ literal s is

-- `№?\s*\d{5,}`
unfoldable pub has_invoice_number : TextLib → Text → Bool
unfolding search_text is_space
has_invoice_number lib s =
    search_text (opt is_number_sign ∷ many is_space ∷ times 5 lib.is_digit (many lib.is_digit ∷ []))
      s

-- `[./-]`
abbrev is_date_mark : ℕ → Bool
is_date_mark c = c == 46 || c == 47 || c == 45

-- `\d{2}[./-]\d{2}[./-]\d{2,4}`
unfoldable pub has_date : TextLib → Text → Bool
unfolding search_text
has_date lib s =
    search_text
      (times 2 lib.is_digit (
        one is_date_mark
        ∷ times 2 lib.is_digit
            (one is_date_mark ∷ times 2 lib.is_digit (opt lib.is_digit ∷ opt lib.is_digit ∷ []))))
      s

-- `заявка\s*№?\s*\d+`, or `заявка\s+на\s+стеклопакеты\s*№\s*\d+`
unfoldable pub has_request_with_number : TextLib → Text → Bool
unfolding search_text is_space
has_request_with_number lib s =
    search_text
      (literal (codes "заявка") (
        many is_space
        ∷ opt is_number_sign
        ∷ many is_space
        ∷ one lib.is_digit
        ∷ many lib.is_digit
        ∷ []))
      s
    || search_text
        (literal (codes "заявка") (
          one is_space
          ∷ many is_space
          ∷ literal (codes "на") (
              one is_space
              ∷ many is_space
              ∷ literal (codes "стеклопакеты") (
                  many is_space
                  ∷ one is_number_sign
                  ∷ many is_space
                  ∷ one lib.is_digit
                  ∷ many lib.is_digit
                  ∷ []))))
        s

-- `len(text.split())`: the runs of characters that are no spaces, and whether one has begun.
unfoldable pub words_from : Bool → Text → ℕ
unfolding is_space
words_from begun [] = 0
words_from begun (c ∷ s) =
    let later = words_from true s in
    let apart = words_from false s in
    if is_space c then apart else if begun then later else suc later

pub record TextFeatures : Type 0 where
  pub has_request_word : Bool
  pub has_calc_word : Bool
  pub has_question_word : Bool
  pub has_price_deadline_word : Bool
  pub has_invoice_word : Bool
  pub has_request_form_word : Bool
  pub has_question_mark : Bool
  pub has_exclamation : Bool
  pub text_length : ℕ
  pub word_count : ℕ
  pub is_very_short : Bool
  pub is_empty_or_only_greeting : Bool
  pub invoice_number : Bool
  pub date : Bool
  pub request_with_number : Bool
  pub is_request_likely : Bool
  pub is_calculation_likely : Bool
  pub is_question_likely : Bool
  pub calc_with_invoice_pattern : Bool

unfoldable pub extract_text_features : TextLib → Text → TextFeatures
unfolding strip check_any has_invoice_number has_date has_request_with_number words_from
extract_text_features lib text =
    let text_lower = strip (lib.lower text) in
    let request = check_any request_words text_lower in
    let calc = check_any calc_words text_lower in
    let price = check_any price_deadline_words text_lower in
    let asks = check_any question_words text_lower in
    let invoice = check_any invoice_words text_lower in
    let form = check_any request_form_words text_lower in
    let question_mark = contains_word (codes "?") text in
    let words = words_from false text in
    let number = has_invoice_number lib text in
    let dated = has_date lib text in
    let very_short = ltb (length text) 100 in
    record {
      has_request_word = request;
      has_calc_word = calc;
      has_question_word = asks;
      has_price_deadline_word = price;
      has_invoice_word = invoice;
      has_request_form_word = form;
      has_question_mark = question_mark;
      has_exclamation = contains_word (codes "!") text;
      text_length = length text;
      word_count = words;
      is_very_short = very_short;
      is_empty_or_only_greeting =
          ltb (length text) 50 && contains_word (codes "здравствуйте") text_lower;
      invoice_number = number;
      date = dated;
      request_with_number = has_request_with_number lib text_lower;
      is_request_likely = request || number || (form && not calc);
      is_calculation_likely = calc || (price && invoice) || (price && not request);
      is_question_likely =
          asks
          || (question_mark && very_short)
          || (question_mark && ltb words 10)
          || (question_mark && not number && not dated);
      calc_with_invoice_pattern = calc && invoice;
    }

-- `^(.+)\.([a-z]+)$`, from the first character on: the suffix after the last point, where there is
-- a character before the point and no line ends there. `$` matches before a last line feed too.
abbrev pub is_lower : ℕ → Bool
is_lower c = leb 97 c && leb c 122

unfoldable pub suffix_end : Text → Option Text
suffix_end [] = some []
suffix_end (c ∷ s) =
    let rest = suffix_end s in
    if is_lower c
    then (elim rest [ none ↦ none | some t ↦ some (c ∷ t) ])
    else if text_beq (c ∷ s) (10 ∷ [])
    then some []
    else none

-- `[a-z]+`
abbrev pub not_empty_suffix : Option Text → Option Text
not_empty_suffix none = none
not_empty_suffix (some []) = none
not_empty_suffix (some (c ∷ t)) = some (c ∷ t)

-- What follows the first characters: `.` takes all but a line feed.
unfoldable pub suffix_from : Bool → Text → Option Text
unfolding suffix_end
suffix_from started [] = none
suffix_from started (c ∷ s) =
    let later = suffix_from true s in
    elim (if c == 10 then none else later) [
      | some t ↦ some t
      | none ↦ if started && c == 46 then not_empty_suffix (suffix_end s) else none
    ]

unfoldable pub is_table_name : Text → Bool
unfolding suffix_from
is_table_name file = elim (suffix_from false file) [
  | none ↦ false
  | some t ↦ text_beq t (codes "xls") || text_beq t (codes "xlsx")
]

pub record FileFeatures : Type 0 where
  pub xlsx_count : ℕ
  pub has_xlsx : Bool

-- The loop, from the counts so far on.
unfoldable pub count_files : List Text → FileFeatures → FileFeatures
unfolding is_table_name
count_files [] f = f
count_files (file ∷ files) f =
    count_files files
      (if is_table_name file then record { xlsx_count = f.xlsx_count + 1; has_xlsx = true } else f)

unfoldable pub extract_files_features : List Text → FileFeatures
unfolding count_files
extract_files_features files = count_files files (record { xlsx_count = 0; has_xlsx = false })
