-- ===== src/Processing/Handlers/Drain.antt =====
-- processors/main.py: the inner loop of `main_loop`, and when it ends.
use mathlib.Core.Path.{subst}
use orders_agent.Base.{
  ℕ, zero, suc, ◌*◌, ◌<◌, ◌≡◌, refl, sym, ap, ◌∙◌, true, false, Option, none, some, List, [], ◌∷◌,
  arith, inl, inr, Bool-cases,
}
use orders_agent.Base.Lists.{All, length, length-map}
use orders_agent.Database.Models.{Task, Database}
use orders_agent.Database.Rows.Order.{In}
use orders_agent.Database.Rows.Total.{All-In, All-of}
use orders_agent.Database.Tasks.{is_pending, fetch_pending}
use orders_agent.Database.Tasks.Ids.{
  Distinct, Current, ids, fetch_pending-Distinct, In-Current, ids-Different, In-ids,
}
use orders_agent.Database.Tasks.Queue.{fetch_pending_sound, fetch_pending_complete}
use orders_agent.Processing.{Services, World}
use orders_agent.Processing.Handlers.{process_tasks, round, batch_size}
use orders_agent.Processing.Handlers.Moves.{has_handler}
use orders_agent.Processing.Handlers.Weight.{left, left_le}
use orders_agent.Processing.Handlers.Serviceable.{
  Handled, Taken, Serviceable, Keeps, Distinct-after, tasks-left,
}

-- The inner `while True`, for at most `fuel` rounds; `clock` gives the time of each. None where
-- the rounds did not suffice.
unfoldable pub drain : Services → (ℕ → ℕ) → ℕ → World → Option World
unfolding round
drain svc clock zero w = none
drain svc clock (suc fuel) w = elim (round svc (clock fuel) w) [
  | none ↦ some w
  | some w' ↦ drain svc clock fuel w'
]

-- The loop has come to its end: nothing is pending, and no task came or went.
abbrev pub Drained : Database → World → Type 0
Drained db w = All (λ t. is_pending t.status ≡ false) w.db.tasks × (ids w.db.tasks ≡ ids db.tasks)

nothing_pending :
    (db : Database)
    → fetch_pending batch_size db ≡ []
    → All (λ t. is_pending t.status ≡ false) db.tasks
nothing_pending db e = All-of _ db.tasks (λ t i. elim (Bool-cases (is_pending t.status)) [
  | inl p ↦ elim (fetch_pending_complete batch_size db t p i) [
    | inl j ↦ absurd (subst (In t) e j)
    | inr (full, older) ↦ absurd (omega (arith, sym full ∙ ap length e))
  ]
  | inr p ↦ p
])

module _ (svc : Services) (clock : ℕ → ℕ) where
  -- What `tasks-left` asks of a batch.
  batch_ready :
      (w : World)
      → Distinct w.db.tasks
      → All (Serviceable svc) w.db.tasks
      → let batch = fetch_pending batch_size w.db in
        All (Current w.db) batch
        × All (λ t. In t.id (ids w.db.tasks) × (has_handler t.status ≡ true) × Taken svc t) batch
  batch_ready w d handled =
      let sound = (fetch_pending_sound batch_size w.db).2 in
      let batch = fetch_pending batch_size w.db in
      (
        All-of _ batch (λ t i. In-Current w.db t d ((sound t i).1)),
        All-of _ batch (λ t i.
            let (p, j) = sound t i in
            let (h, taken) = All-In (Serviceable svc) t w.db.tasks handled j in
            (In-ids t w.db.tasks j, h p, taken)),
      )

  -- A round with a batch, and what it leaves to do.
  round_left :
      (fuel : ℕ) (w : World) (t : Task) (ts : List Task)
      → Distinct w.db.tasks
      → All (Serviceable svc) w.db.tasks
      → fetch_pending batch_size w.db ≡ t ∷ ts
      → (w' : World) × (drain svc clock (suc fuel) w ≡ drain svc clock fuel w')
        × (left (ids w.db.tasks) w'.db < left (ids w.db.tasks) w.db)
        × Keeps svc w.db w'.db
  round_left fuel w t ts d handled e =
      let ready = batch_ready w d handled in
      let Ready : Task → Type 0 =
        λ x. In x.id (ids w.db.tasks) × (has_handler x.status ≡ true) × Taken svc x in
      let dt = subst Distinct e (fetch_pending-Distinct batch_size w.db d) in
      let (lower, keeps) =
        tasks-left svc (clock fuel) (ids w.db.tasks) (t ∷ ts) w (ids-Different w.db.tasks d) d
          handled dt (subst (All (Current w.db)) e ready.0) (subst (All Ready) e ready.1) in
      (
        process_tasks svc (clock fuel) (t ∷ ts) w,
        unfold drain round in rw (drain, round, e) refl,
        omega (arith, lower),
        keeps,
      )

  drain_enough :
      (fuel : ℕ) (w : World)
      → Distinct w.db.tasks
      → All (Serviceable svc) w.db.tasks
      → left (ids w.db.tasks) w.db < fuel
      → (w' : World) × (drain svc clock fuel w ≡ some w') × Drained w.db w'
  drain_enough zero w d handled enough = absurd (omega (arith, enough))
  drain_enough (suc fuel) w d handled enough =
      by_batch (fetch_pending batch_size w.db) refl (λ w1 k lower.
        drain_enough fuel w1 (Distinct-after w.db w1.db k.same_ids d) k.handled
          (subst (λ ns. left ns w1.db < fuel) (sym k.same_ids) (omega (arith, lower, enough))))
    where
      by_batch :
          (ts : List Task)
          → fetch_pending batch_size w.db ≡ ts
          → ((w1 : World)
              → Keeps svc w.db w1.db
              → left (ids w.db.tasks) w1.db < left (ids w.db.tasks) w.db
              → (w' : World) × (drain svc clock fuel w1 ≡ some w') × Drained w1.db w')
          → (w' : World) × (drain svc clock (suc fuel) w ≡ some w') × Drained w.db w'
      by_batch [] e rest =
          (w, unfold drain round in rw (drain, round, e) refl, (nothing_pending w.db e, refl))
      by_batch (t ∷ ts) e rest =
          let (w1, next, lower, keeps) = round_left fuel w t ts d handled e in
          let (w', ends, drained) = rest w1 keeps lower in
          (w', next ∙ ends, (drained.0, drained.1 ∙ keeps.same_ids))

-- Where the database takes the rows of the answers that the tasks carry, and no task waits in a
-- status without a handler, the inner loop of `main_loop` ends, whatever the services return: three rounds for each
-- task of the table, and one, are enough. Then no task is pending, and none came or went.
pub drain_terminates :
    (svc : Services) (clock : ℕ → ℕ) (w : World)
    → Distinct w.db.tasks
    → All Handled w.db.tasks
    → All (Taken svc) w.db.tasks
    → (w' : World) × (drain svc clock (suc (3 * length w.db.tasks)) w ≡ some w') × Drained w.db w'
drain_terminates svc clock w d handled taken =
    drain_enough svc clock (suc (3 * length w.db.tasks)) w d (both w.db.tasks handled taken)
      (omega (arith, left_le (ids w.db.tasks) w.db, length-map w.db.tasks (λ t. t.id)))
  where
    both : (ts : List Task) → All Handled ts → All (Taken svc) ts → All (Serviceable svc) ts
    both [] h k = tt
    both (t ∷ ts) h k = ((h.0, k.0), both ts h.1 k.1)
