-- ===== src/Processing/Threshold.antt =====
-- processors/classify/model.py: `decide_by_thresholds`.
use Prim.Native.Nat.{◌^◌}
use orders_agent.Base.{
  ℕ, ◌*◌, ◌≤◌, ◌<◌, ◌≡◌, refl, Option, none, some, List, [], ◌∷◌, leb, if◌then◌else◌, arith, ◌⊎◌,
  inl, inr, Bool-cases,
}
use orders_agent.Base.Lists.{length}
use orders_agent.Base.Text.{Text, codes}
use orders_agent.Database.Models.{Prob}

pub record Decision : Type 0 where
  pub decision : Text
  pub predicted : Option ℕ
  pub status : Text
  pub prob : Prob

-- 0.75, in the units of `Prob`.
abbrev pub threshold_default : Prob
threshold_default = 3 * 2 ^ 1072

abbrev review : Prob → Decision
review p = record { decision = codes "review"; predicted = none; status = codes "review"; prob = p }

abbrev classified : Text → ℕ → Prob → Decision
classified c i p = record {
  decision = c;
  predicted = some i;
  status = codes "classified";
  prob = p;
}

-- The loop over `zip(classes, indexes, proba)`.
unfoldable pub decide_by_thresholds : List Text → List ℕ → List Prob → Prob → List Decision
decide_by_thresholds (c ∷ cs) (i ∷ is) (p ∷ ps) threshold =
    (if leb threshold p then classified c i p else review p)
    ∷ decide_by_thresholds cs is ps threshold
decide_by_thresholds _ _ _ threshold = []

-- What the decision for one label must be.
abbrev pub Decides : Text → ℕ → Prob → Prob → Decision → Type 0
Decides c i p threshold d =
    ((threshold ≤ p) × (d.decision ≡ c) × (d.predicted ≡ some i) × (d.prob ≡ p))
    ⊎ ((p < threshold) × (d.decision ≡ codes "review") × (d.predicted ≡ none) × (d.prob ≡ p))

abbrev pub AllDecide : List Text → List ℕ → List Prob → Prob → List Decision → Type 0
AllDecide [] [] [] threshold [] = Unit {0}
AllDecide (c ∷ cs) (i ∷ is) (p ∷ ps) threshold (d ∷ ds) =
    Decides c i p threshold d × AllDecide cs is ps threshold ds
AllDecide _ _ _ _ _ = ⊥

Decides-one :
    (c : Text) (i : ℕ) (p threshold : Prob)
    → Decides c i p threshold (if leb threshold p then classified c i p else review p)
Decides-one c i p threshold = elim (Bool-cases (leb threshold p)) [
  | inl yes_ ↦ rw yes_ (inl (ground (arith, yes_), refl, refl, refl))
  | inr no_ ↦ rw no_ (inr (ground (arith, no_), refl, refl, refl))
]

-- For as many labels as indexes and probabilities there is one decision each, in their order: the
-- label with its index where the probability reaches the threshold, and a review with no
-- predicted class where it does not.
pub decide_by_thresholds-AllDecide :
    (cs : List Text) (is : List ℕ) (ps : List Prob) (threshold : Prob)
    → length is ≡ length cs
    → length ps ≡ length cs
    → AllDecide cs is ps threshold (decide_by_thresholds cs is ps threshold)
unfolding decide_by_thresholds
decide_by_thresholds-AllDecide [] [] [] threshold h k = tt
decide_by_thresholds-AllDecide [] [] (p ∷ ps) threshold h k = absurd (omega arith)
decide_by_thresholds-AllDecide [] (i ∷ is) ps threshold h k = absurd (omega arith)
decide_by_thresholds-AllDecide (c ∷ cs) [] ps threshold h k = absurd (omega arith)
decide_by_thresholds-AllDecide (c ∷ cs) (i ∷ is) [] threshold h k = absurd (omega arith)
decide_by_thresholds-AllDecide (c ∷ cs) (i ∷ is) (p ∷ ps) threshold h k = (
  Decides-one c i p threshold,
  decide_by_thresholds-AllDecide cs is ps threshold (omega arith) (omega arith),
)
