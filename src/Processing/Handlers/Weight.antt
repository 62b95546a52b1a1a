-- ===== src/Processing/Handlers/Weight.antt =====
-- How much the processor has left to do: each task counts the handlers that it can still meet, by
-- its status and by whether its email is decided on. Every handler lowers the sum.
use orders_agent.Base.{
  ℕ, ◌+◌, ◌*◌, ◌≤◌, ◌<◌, ◌≡◌, ◌≢◌, refl, sym, Bool, true, false, Option, none, some, List, [], ◌∷◌,
  arith, inl, inr, Option-cases,
}
use mathlib.Core.Path.{subst}
use orders_agent.Base.Lists.{All, length}
use orders_agent.Database.Models.{
  TaskStatus, new, downloaded, files_saved, ml_processing, ml_classified, question, ml_review,
  materials_review, manual_review_done, completed, error, Task, Database,
}
use orders_agent.Database.Rows.Order.{In}
use orders_agent.Database.Rows.Total.{All-In}
use orders_agent.Database.Tasks.{get_task}
use orders_agent.Database.Tasks.Ids.{Different, Current}
use orders_agent.Processing.{Services, World}
use orders_agent.Processing.Handlers.{process_single_task}
use orders_agent.Processing.Handlers.Moves.{settled, has_handler, Moves, Others, Kept}
use orders_agent.Processing.Handlers.Single.{process_single_task-Moves}
use orders_agent.Processing.Handlers.Steps.{
  Goes, Refuses, reviewed, classified, new_failed, unclassified, asked, parts_unknown, done,
  excel_failed, answered, not_stored, not_classified, matching_failed, no_handler,
}

unfoldable pub rank : TaskStatus → Bool → ℕ
rank manual_review_done b = 3
rank new b = 2
rank ml_classified false = 3
rank ml_classified true = 1
rank _ b = 0

pub rank_le : (s : TaskStatus) (b : Bool) → rank s b ≤ 3
unfolding rank
rank_le manual_review_done b = omega arith
rank_le new b = omega arith
rank_le ml_classified false = omega arith
rank_le ml_classified true = omega arith
rank_le downloaded b = omega arith
rank_le files_saved b = omega arith
rank_le ml_processing b = omega arith
rank_le question b = omega arith
rank_le ml_review b = omega arith
rank_le materials_review b = omega arith
rank_le completed b = omega arith
rank_le error b = omega arith

-- A decision does not raise the rank.
rank-true : (s : TaskStatus) (b : Bool) → rank s true ≤ rank s b
unfolding rank
rank-true ml_classified false = omega arith
rank-true ml_classified true = omega arith
rank-true manual_review_done b = omega arith
rank-true new b = omega arith
rank-true downloaded b = omega arith
rank-true files_saved b = omega arith
rank-true ml_processing b = omega arith
rank-true question b = omega arith
rank-true ml_review b = omega arith
rank-true materials_review b = omega arith
rank-true completed b = omega arith
rank-true error b = omega arith

classified_pos : (b : Bool) → 0 < rank ml_classified b
unfolding rank
classified_pos true = omega arith
classified_pos false = omega arith

rank-Goes :
    {Refused : Type 0} {s s' : TaskStatus} {b b' : Bool}
    → ¬ Refused
    → has_handler s ≡ true
    → Goes Refused s b s' b'
    → rank s' b' < rank s b
unfolding rank
rank-Goes taken h reviewed = omega arith
rank-Goes taken h classified = omega arith
rank-Goes taken h new_failed = omega arith
rank-Goes taken h unclassified = omega arith
rank-Goes {b = b} taken h asked = classified_pos b
rank-Goes {b = b} taken h parts_unknown = classified_pos b
rank-Goes {b = b} taken h done = classified_pos b
rank-Goes {b = b} taken h excel_failed = classified_pos b
rank-Goes taken h answered = omega arith
rank-Goes taken h (not_stored refused) = absurd (taken refused)
rank-Goes taken h not_classified = omega arith
rank-Goes taken h matching_failed = omega arith
rank-Goes taken h (no_handler none_) = cc

abbrev rank_of : Database → Option Task → ℕ
rank_of db none = 0
rank_of db (some t) = rank t.status (settled t.email_id db)

unfoldable pub rank_at : Database → ℕ → ℕ
rank_at db n = rank_of db (get_task n db)

-- What is left to do for the tasks with these ids.
unfoldable pub left : List ℕ → Database → ℕ
unfolding rank_at
left [] db = 0
left (n ∷ ns) db = rank_at db n + left ns db

pub left_le : (ns : List ℕ) (db : Database) → left ns db ≤ 3 * length ns
unfolding left rank_at
left_le [] db = omega arith
left_le (n ∷ ns) db = elim (Option-cases (get_task n db)) [
  | inl e ↦ rw e (omega (arith, left_le ns db))
  | inr (t, e) ↦ rw e (omega (arith, left_le ns db, rank_le t.status (settled t.email_id db)))
]

rank_mono : (s : TaskStatus) (b b' : Bool) → (b ≡ true → b' ≡ true) → rank s b' ≤ rank s b
rank_mono s true b' h = rw (h refl) (omega arith)
rank_mono s false true h = rank-true s false
rank_mono s false false h = omega arith

module _ (db db' : Database) (kept : Kept db db') where
  rank_at_other : (k : ℕ) → get_task k db' ≡ get_task k db → rank_at db' k ≤ rank_at db k
  unfolding rank_at
  rank_at_other k e = elim (Option-cases (get_task k db)) [
    | inl h ↦ rw (e, h) (omega arith)
    | inr (t, h) ↦
        rw (e, h)
          (rank_mono t.status (settled t.email_id db) (settled t.email_id db') (kept t.email_id))
  ]

  left-Others :
      (n : ℕ) (ns : List ℕ) → All (λ k. k ≢ n) ns → Others n db db' → left ns db' ≤ left ns db
  unfolding left
  left-Others n [] apart others = omega arith
  left-Others n (k ∷ ns) apart others =
      omega
        (arith, rank_at_other k (others k (λ e. apart.0 (sym e))), left-Others n ns apart.1 others)

  left_falls :
      (n : ℕ) (ns : List ℕ)
      → Different ns
      → In n ns
      → Others n db db'
      → rank_at db' n < rank_at db n
      → left ns db' < left ns db
  unfolding left
  left_falls n [] d i others falls = absurd i
  left_falls n (k ∷ ns) d (inl e) others falls = omega (
    arith,
    left-Others n ns (subst (λ x. All (λ j. j ≢ x) ns) (sym e) d.0) others,
    subst (λ x. rank_at db' x < rank_at db x) e falls,
  )
  left_falls n (k ∷ ns) d (inr i) others falls = omega (
    arith,
    left_falls n ns d.1 i others falls,
    rank_at_other k (others k (λ e. All-In (λ j. j ≢ k) n ns d.0 i e)),
  )

module _ (svc : Services) where
  -- A handler lowers what is left.
  pub process_single_task-left :
      (now : ℕ) (ns : List ℕ) (t : Task) (w : World)
      → Different ns
      → In t.id ns
      → Current w.db t
      → has_handler t.status ≡ true
      → ¬ Refuses svc t
      → left ns (process_single_task svc now t w).db < left ns w.db
  process_single_task-left now ns t w d i current h taken =
      unfold Moves in
      let m = process_single_task-Moves svc now t w current in
      let (t', there, same, goes) = m.4 (t, current, refl) in
      left_falls w.db (process_single_task svc now t w).db m.2 t.id ns d i m.0
        (falls t' there same (rank-Goes taken h goes))
    where
      falls :
          (t' : Task)
          → get_task t.id (process_single_task svc now t w).db ≡ some t'
          → t'.email_id ≡ t.email_id
          → rank t'.status (settled t.email_id (process_single_task svc now t w).db)
            < rank t.status (settled t.email_id w.db)
          → rank_at (process_single_task svc now t w).db t.id < rank_at w.db t.id
      falls t' there same lower = unfold rank_at in rw (there, current, same) lower
