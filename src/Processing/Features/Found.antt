-- ===== src/Processing/Features/Found.antt =====
-- What the features say of the text and of the files.
use orders_agent.Base.{
  ◌+◌, ◌*◌, ◌≤◌, ◌≡◌, refl, ◌↔◌, Bool, true, false, ◌||◌, [], ◌∷◌, arith, Bool-cases, inl, inr,
}
use orders_agent.Base.Lists.{length}
use orders_agent.Base.Text.{Text}
use orders_agent.Base.Text.Pattern.{HasRun, search_text-HasRun}
use orders_agent.Base.Text.{is_space}
use orders_agent.Table.Cell.{TextLib}
use orders_agent.Processing.Features.{
  is_number_sign, has_invoice_number, words_from, extract_text_features,
}

or_middle : (a b c : Bool) → b ≡ true → ((a || b) || c) ≡ true
or_middle true b c h = refl
or_middle false true c h = refl
or_middle false false c h = cc

-- The feature `has_invoice_number` is set just for the texts in which five digits stand together,
-- wherever they stand: the number sign and the spaces of the pattern change nothing. Each such text
-- is a likely request.
pub invoice_number-HasRun :
    (lib : TextLib) (text : Text)
    → (((extract_text_features lib text).invoice_number ≡ true) ↔ HasRun 5 lib.is_digit text)
      × (HasRun 5 lib.is_digit text → (extract_text_features lib text).is_request_likely ≡ true)
unfolding extract_text_features has_invoice_number
invoice_number-HasRun lib text =
    let found = search_text-HasRun 5 lib.is_digit is_number_sign is_space text in
    (found, λ run. or_middle _ _ _ (found.1 run))

words_from-bounds :
    (s : Text) → (2 * words_from false s ≤ length s + 1) × (2 * words_from true s ≤ length s)
unfolding words_from
words_from-bounds [] = (omega arith, omega arith)
words_from-bounds (c ∷ s) =
    let (fresh, begun) = words_from-bounds s in
    elim (Bool-cases (is_space c)) [
      | inl space ↦
          rw (words_from, space) (omega (arith, fresh, begun), omega (arith, fresh, begun))
      | inr letter ↦
          rw (words_from, letter) (omega (arith, fresh, begun), omega (arith, fresh, begun))
    ]

-- The feature `word_count` is at most half of `text_length`, rounded up: two words have a space
-- between them.
pub word_count-bounds :
    (lib : TextLib) (text : Text)
    → 2 * (extract_text_features lib text).word_count
      ≤ (extract_text_features lib text).text_length + 1
unfolding extract_text_features
word_count-bounds lib text = (words_from-bounds text).0
