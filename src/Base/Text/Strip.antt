-- ===== src/Base/Text/Strip.antt =====
-- `strip` twice is `strip` once.
use Prim.Native.Nat.{ℕ}
use orders_agent.Base.Tests.{if◌then◌else◌, Bool-cases}
use mathlib.Core.Path.{◌≡◌, refl, ◌∙◌}
use mathlib.Core.Logic.{inl, inr}
use mathlib.Core.Bool.{true, false}
use mathlib.Core.List.{[], ◌∷◌}
use orders_agent.Base.Text.{Text, is_space, lstrip, rstrip, strip, IsStripped}

rstrip-empty :
    (c : ℕ) (s : Text) → rstrip s ≡ [] → rstrip (c ∷ s) ≡ (if is_space c then [] else c ∷ [])
rstrip-empty c s e = unfold rstrip in rw (rstrip, e)

rstrip-full : (c d : ℕ) (s t : Text) → rstrip s ≡ d ∷ t → rstrip (c ∷ s) ≡ c ∷ d ∷ t
rstrip-full c d s t e = unfold rstrip in rw (rstrip, e)

rstrip_next :
    (c : ℕ) (s t : Text)
    → rstrip s ≡ t
    → rstrip (rstrip s) ≡ rstrip s
    → rstrip (rstrip (c ∷ s)) ≡ rstrip (c ∷ s)
rstrip_next c s [] e ih = elim (Bool-cases (is_space c)) [
  | inl space ↦ rw (rstrip-empty c s e, space) (unfold rstrip in refl)
  | inr plain ↦
      rw (rstrip-empty c s e, plain) (rstrip-empty c [] (unfold rstrip in refl) ∙ rw plain)
]
rstrip_next c s (d ∷ t) e ih = rw (rstrip-full c d s t e) (rstrip-full c d (d ∷ t) t (rw e at ih))

rstrip_idem : (s : Text) → rstrip (rstrip s) ≡ rstrip s
rstrip_idem [] = unfold rstrip in refl
rstrip_idem (c ∷ s) = rstrip_next c s (rstrip s) refl (rstrip_idem s)

lstrip-plain : (c : ℕ) (s : Text) → is_space c ≡ false → lstrip (c ∷ s) ≡ c ∷ s
lstrip-plain c s h = unfold lstrip in rw (lstrip, h)

lstrip-space : (c : ℕ) (s : Text) → is_space c ≡ true → lstrip (c ∷ s) ≡ lstrip s
lstrip-space c s h = unfold lstrip in rw (lstrip, h)

-- After a character that is no space, `rstrip` keeps the character.
lstrip-rstrip_plain :
    (c : ℕ) (s t : Text)
    → is_space c ≡ false
    → rstrip s ≡ t
    → lstrip (rstrip (c ∷ s)) ≡ rstrip (c ∷ s)
lstrip-rstrip_plain c s [] h e = rw (rstrip-empty c s e, h) (lstrip-plain c [] h)
lstrip-rstrip_plain c s (d ∷ t) h e = rw (rstrip-full c d s t e) (lstrip-plain c (d ∷ t) h)

lstrip-strip : (s : Text) → lstrip (rstrip (lstrip s)) ≡ rstrip (lstrip s)
lstrip-strip [] = unfold lstrip rstrip in refl
lstrip-strip (c ∷ s) = elim (Bool-cases (is_space c)) [
  | inl space ↦ rw (lstrip-space c s space) (lstrip-strip s)
  | inr plain ↦ rw (lstrip-plain c s plain) (lstrip-rstrip_plain c s (rstrip s) plain refl)
]

pub strip-IsStripped : (s : Text) → IsStripped (strip s)
unfolding strip
strip-IsStripped s = record { left = lstrip-strip s; right = rstrip_idem (lstrip s) }
