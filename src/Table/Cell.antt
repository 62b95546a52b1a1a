-- ===== src/Table/Cell.antt =====
-- processors/table/table_processer.py: `CellType`, `TYPES_CONFIG`, `fuzzy_match` and `Cell`.
use Prim.Native.Nat.{◌^◌}
use orders_agent.Base.{
  ℕ, ◌*◌, ◌≡◌, Bool, true, false, ◌&&◌, ◌||◌, Option, none, some, List, [], ◌∷◌, ◌==◌, leb,
  if◌then◌else◌, Eq, arith, ◌↔◌,
}
use orders_agent.Base.Text.{Text, codes, strip, is_space}

-- The flags, without the unions of `HEADER` and of the column rules.
pub data CellType : Type 0 where
  text number size_h length_h width_h height_h amount_h mat_h barcode_h marking_h : CellType

-- The position of the flag's bit.
abbrev bit : CellType → ℕ
bit text = 0
bit number = 1
bit size_h = 2
bit length_h = 3
bit width_h = 4
bit height_h = 5
bit amount_h = 6
bit mat_h = 7
bit barcode_h = 8
bit marking_h = 9

abbrev pub type_beq : CellType → CellType → Bool
type_beq a b = bit a == bit b

pub type_beq_iff : (a b : CellType) → (type_beq a b ≡ true) ↔ (a ≡ b)
type_beq_iff a b = ground arith

instance abbrev pub type_eq : Eq CellType
type_eq = record { beq = type_beq; beq_iff = type_beq_iff }

-- What the code takes from Unicode and from `rapidfuzz`: the digits that `\d` matches, `str.lower`,
-- and `fuzz.ratio`, whose double counts units of 2^-1074.
pub record TextLib : Type 0 where
  pub is_digit : ℕ → Bool
  pub lower : Text → Text
  pub ratio : Text → Text → ℕ

pub fuzzy_match : TextLib → Text → Text → ℕ → Bool
fuzzy_match lib s pattern_ threshold = leb (threshold * 2 ^ 1074) (lib.ratio s pattern_)

-- `\d*`, then the end of the text.
unfoldable pub digits_only : TextLib → Text → Bool
digits_only lib [] = true
digits_only lib (c ∷ s) = lib.is_digit c && digits_only lib s

-- `\d*(?:[.,]\d+)?$`
unfoldable pub number_rest : TextLib → Text → Bool
number_rest lib [] = true
number_rest lib (c ∷ []) = lib.is_digit c
number_rest lib (c ∷ d ∷ s) =
    (lib.is_digit c && number_rest lib (d ∷ s))
    || ((c == 46 || c == 44) && lib.is_digit d && digits_only lib s)

-- `\d+(?:[.,]\d+)?$`
abbrev unsigned : TextLib → Text → Bool
unsigned lib [] = false
unsigned lib (c ∷ s) = lib.is_digit c && number_rest lib s

-- The regular expression of `NUMBER`: `^[+-]?\d+(?:[.,]\d+)?$`
unfoldable pub is_number : TextLib → Text → Bool
unfolding digits_only number_rest
is_number lib [] = false
is_number lib (c ∷ s) = if c == 43 || c == 45 then unsigned lib s else unsigned lib (c ∷ s)

-- The fuzzy part of TYPES_CONFIG, in its order.
fuzzy_config : List (CellType × List Text)
fuzzy_config =
    (
      size_h,
      codes "размер"
          ∷ codes "размеры"
          ∷ codes "размеры,мм"
          ∷ codes "размеры[мм]"
          ∷ codes "размеры(мм)"
          ∷ [],
    )
    ∷ (length_h, codes "длина" ∷ codes "длина,мм" ∷ codes "длина[мм]" ∷ codes "длина(мм)" ∷ [])
    ∷ (width_h, codes "ширина" ∷ codes "ширина,мм" ∷ codes "ширина[мм]" ∷ codes "ширина(мм)" ∷ [])
    ∷ (height_h, codes "высота" ∷ codes "высота,мм" ∷ codes "высота[мм]" ∷ codes "высота(мм)" ∷ [])
    ∷ (
      amount_h,
      codes "кол-во" ∷ codes "количество" ∷ codes "кол-во(шт)" ∷ codes "количество(шт)" ∷ [],
    )
    ∷ (
      mat_h,
      codes "наименование"
          ∷ codes "обозначение"
          ∷ codes "имя"
          ∷ codes "номенклатура"
          ∷ codes "артикул"
          ∷ codes "типпакета"
          ∷ codes "формула"
          ∷ codes "формулазаполнения"
          ∷ codes "формуласп"
          ∷ [],
    )
    ∷ (barcode_h, codes "штрихкод" ∷ codes "шк" ∷ [])
    ∷ (marking_h, codes "маркировка" ∷ [])
    ∷ []

abbrev any_match : TextLib → Text → List Text → Bool
any_match lib s [] = false
any_match lib s (p ∷ ps) = fuzzy_match lib s p 90 || any_match lib s ps

unfoldable pub fuzzy_type : TextLib → Text → List (CellType × List Text) → CellType
unfolding fuzzy_match
fuzzy_type lib s [] = text
fuzzy_type lib s ((t, ps) ∷ rest) = if any_match lib s ps then t else fuzzy_type lib s rest

-- `re.sub(r"\s*", "", ...)`
unfoldable pub remove_spaces : Text → Text
remove_spaces [] = []
remove_spaces (c ∷ s) = let rest = remove_spaces s in if is_space c then rest else c ∷ rest

-- `Cell.classify(TYPES_CONFIG)`
unfoldable pub classify : TextLib → Text → CellType
unfolding fuzzy_type remove_spaces is_number fuzzy_config
classify lib value =
    let s = remove_spaces value in
    if is_number lib s then number else fuzzy_type lib (lib.lower s) fuzzy_config

pub record Cell : Type 0 where
  pub value : Text
  pub row : ℕ
  pub col : ℕ
  pub type : CellType

-- `replace("\xa0", "")`
unfoldable pub remove_nbsp : Text → Text
remove_nbsp [] = []
remove_nbsp (c ∷ s) = let rest = remove_nbsp s in if c == 160 then rest else c ∷ rest

-- `Cell(row, col, value, dropempty=True, autoclean=True, autoclassify=True)`: the value is the
-- text that `str` gives, or none for `None`.
unfoldable pub new_cell : TextLib → ℕ → ℕ → Option Text → Option Cell
unfolding classify remove_nbsp
new_cell lib row col none = none
new_cell lib row col (some v) = elim (strip v) [
  | [] ↦ none
  | c ∷ s ↦
      let value = remove_nbsp (c ∷ s) in
      some (record { value = value; row = row; col = col; type = classify lib value })
]
