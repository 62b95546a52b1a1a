-- ===== src/Table/Workbook/Ready.antt =====
-- What the making of the workbooks needs of the sheets that `simple_parser` returns.
use mathlib.Core.Path.{subst}
use orders_agent.Base.{
  some_inj, none-some, ℕ, zero, suc, ◌<◌, ◌≡◌, refl, sym, Bool, true, Option, none, some, List, [],
  ◌∷◌, arith, Bool-cases, inl, inr, is_some,
}
use orders_agent.Base.Lists.{length, All, get_elem?}
use orders_agent.Base.Text.{Text, text_eq}
use orders_agent.Base.Dict.{Dict, lookup}
use orders_agent.Materials.Block.{ℤ}
use orders_agent.Materials.Parser.{ParseResults}
use orders_agent.Table.Sheet.{TableParseResults, no_rows}
use orders_agent.Table.Sheet.Columns.{HasLength, IsRectangular}
use orders_agent.Table.Workbook.{
  text, CellValue, Match, is_legal, Needed, needed, needed_of, sides, comma_to_dot, ◌>>=◌,
}

-- An entry within the length is there, and has what all entries have.
pub entry_at :
    {A : Type 0} (P : A → Type 0) (xs : List A) (i : ℕ)
    → i < length xs
    → All P xs
    → (x : A) × (get_elem? xs i ≡ some x) × P x
entry_at P [] i h all = absurd (omega arith)
entry_at P (x ∷ xs) zero h all = (x, refl, all.0)
entry_at P (x ∷ xs) (suc i) h all = entry_at P xs i (omega arith) all.1

pub bind-some :
    {A B : Type 0} (o : Option A) (f : A → Option B) (a : A)
    → o ≡ some a
    → is_some (f a) ≡ true
    → is_some (o >>= f) ≡ true
bind-some none f a e h = absurd (none-some e)
bind-some (some x) f a e h = subst (λ y. is_some (f y) ≡ true) (sym (some_inj e)) h

pub bind-is_some :
    {A B : Type 0} (o : Option A) (f : A → Option B)
    → is_some o ≡ true
    → ((a : A) → is_some (f a) ≡ true)
    → is_some (o >>= f) ≡ true
bind-is_some none f h k = cc
bind-is_some (some x) f h k = k x

-- The entries of a column that is there.
abbrev pub OnColumn : (Text → Type 0) → Option (List Text) → Type 0
OnColumn P none = Unit {0}
OnColumn P (some vs) = All P vs

module _ (int_float : Text → Option ℤ) (legal : Text → Bool)
    (elements : Dict Text ParseResults) where
  -- `int(float(...))` takes the text, once its comma is a point.
  abbrev pub Converts : Text → Type 0
  Converts x = is_some (int_float (comma_to_dot x)) ≡ true

  -- openpyxl takes the value for a cell.
  abbrev pub IsLegal : CellValue → Type 0
  IsLegal v = is_legal legal v ≡ true

  abbrev pub LegalMatch : Match → Type 0
  LegalMatch (target, article, black_list) = IsLegal (text target) × IsLegal (text article)

  -- The material has been parsed, and its texts can be written.
  abbrev pub IsParsed : Text → Type 0
  IsParsed m =
      (e : ParseResults) × (lookup m elements ≡ some e)
      × (legal m ≡ true)
      × All LegalMatch e.matches
      × IsLegal (text e.postfix)

  abbrev pub LegalText : Text → Type 0
  LegalText s = legal s ≡ true

  -- Every material has been parsed, every size and amount is a number, and the texts can be
  -- written.
  pub record IsReady (s : TableParseResults) : Type 0 where
    pub rectangular : IsRectangular s
    pub material : OnColumn IsParsed s.material
    pub width : OnColumn Converts s.width
    pub length_ : OnColumn Converts s.length
    pub height : OnColumn Converts s.height
    pub amount : OnColumn Converts s.amount
    pub marking : OnColumn LegalText s.marking
    pub barcode : OnColumn LegalText s.barcode

  pub record AreReady (size : ℕ) (n : Needed) : Type 0 where
    pub materials_length : length n.materials ≡ size
    pub xs_length : length n.xs ≡ size
    pub ys_length : length n.ys ≡ size
    pub amounts_length : length n.amounts ≡ size
    pub materials : All IsParsed n.materials
    pub xs : All Converts n.xs
    pub ys : All Converts n.ys
    pub amounts : All Converts n.amounts

  ready :
      (size : ℕ) (n : Needed)
      → (length n.materials ≡ size)
        × (length n.xs ≡ size)
        × (length n.ys ≡ size)
        × (length n.amounts ≡ size)
      → All IsParsed n.materials × All Converts n.xs × All Converts n.ys × All Converts n.amounts
      → AreReady size n
  ready size n a b = record {
    materials_length = a.0;
    xs_length = a.1;
    ys_length = a.2;
    amounts_length = a.3;
    materials = b.0;
    xs = b.1;
    ys = b.2;
    amounts = b.3;
  }

  needed_of-AreReady :
      (size : ℕ) (ms w l h am : Option (List Text)) (n : Needed)
      → HasLength size ms
        × HasLength size w
        × HasLength size l
        × HasLength size h
        × HasLength size am
      → OnColumn IsParsed ms
        × OnColumn Converts w
        × OnColumn Converts l
        × OnColumn Converts h
        × OnColumn Converts am
      → needed_of ms (sides w l h) am ≡ some n
      → AreReady size n
  unfolding sides
  needed_of-AreReady size none w l h am n a b e = absurd (none-some e)
  needed_of-AreReady size (some ms) none none h am n a b e = absurd (none-some e)
  needed_of-AreReady size (some ms) none (some l) none am n a b e = absurd (none-some e)
  needed_of-AreReady size (some ms) none (some l) (some h) none n a b e = absurd (none-some e)
  needed_of-AreReady size (some ms) none (some l) (some h) (some am) n a b e =
      subst (AreReady size) (some_inj e) (
        ready size (record { materials = ms; xs = l; ys = h; amounts = am }) (a.0, a.2, a.3, a.4)
          (b.0, b.2, b.3, b.4))
  needed_of-AreReady size (some ms) (some w) none none am n a b e = absurd (none-some e)
  needed_of-AreReady size (some ms) (some w) none (some h) none n a b e = absurd (none-some e)
  needed_of-AreReady size (some ms) (some w) none (some h) (some am) n a b e =
      subst (AreReady size) (some_inj e) (
        ready size (record { materials = ms; xs = w; ys = h; amounts = am }) (a.0, a.1, a.3, a.4)
          (b.0, b.1, b.3, b.4))
  needed_of-AreReady size (some ms) (some w) (some l) none none n a b e = absurd (none-some e)
  needed_of-AreReady size (some ms) (some w) (some l) none (some am) n a b e =
      subst (AreReady size) (some_inj e) (
        ready size (record { materials = ms; xs = w; ys = l; amounts = am }) (a.0, a.1, a.2, a.4)
          (b.0, b.1, b.2, b.4))
  needed_of-AreReady size (some ms) (some w) (some l) (some h) am n a b e = absurd (none-some e)

  pub needed-AreReady :
      (s : TableParseResults) (n : Needed) → IsReady s → needed s ≡ some n → AreReady s.size n
  unfolding needed
  needed-AreReady s n h e = elim (Bool-cases (no_rows s)) [
    | inl nothing ↦ absurd (none-some (rw nothing at e))
    | inr rows ↦
        let r = h.rectangular in
        needed_of-AreReady s.size s.material s.width s.length s.height s.amount n
          (r.material, r.width, r.length_, r.height, r.amount)
          (h.material, h.width, h.length_, h.height, h.amount) (rw rows at e)
  ]
