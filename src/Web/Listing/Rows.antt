-- ===== src/Web/Listing/Rows.antt =====
-- The rows of the query, and their order.
use orders_agent.Base.{
  ℕ, ◌≤◌, ◌<◌, ◌∙◌, none, some, some_inj, ◌≡◌, refl, ap, Bool, true, false, Option, List, [], ◌∷◌,
  arith, ◌⊎◌, inl, inr, map,
}
use orders_agent.Base.Lists.{All, length}
use orders_agent.Materials.Block.{ℤ, pos, negsuc}
use orders_agent.Database.Models.{TaskStatus, Task, Email, Database}
use orders_agent.Database.Rows.{where_rows, order_by}
use orders_agent.Database.Rows.Order.{In, In-where_rows, where_rows-In}
use orders_agent.Database.Rows.Total.{
  IsOrdered, IsTotal, take-In_any, order_by-In_any, In-order_by_any, order_by-IsOrdered,
  take-IsOrdered, In-take_any,
}
use orders_agent.Web.{User, can_see}
use orders_agent.Base.Text.{text_beq_iff}
use orders_agent.Web.Listing.Query.{
  place, status_elem, shown_task, row_date, date_of, status_asked, archived_asked, QueueRow, row_of,
  listed_before, is_listed, query_limit, queue_rows,
}

listed_before-IsTotal : IsTotal listed_before
unfolding listed_before
listed_before-IsTotal = record {
  flip = λ a b h. ground (arith, h);
  trans = λ a b c h k. ground (arith, h, k);
}

module _ (user : User) (statuses : List TaskStatus) (archived : Option Bool) (db : Database) where
  abbrev pub matching : List QueueRow
  matching = where_rows (is_listed user statuses archived) (map (row_of db) db.emails)

  In-map_row : (e : Email) (es : List Email) → In e es → In (row_of db e) (map (row_of db) es)
  In-map_row e [] i = absurd i
  In-map_row e (x ∷ xs) (inl h) = inl (ap (row_of db) h)
  In-map_row e (x ∷ xs) (inr i) = inr (In-map_row e xs i)

  map_row-In :
      (r : QueueRow) (es : List Email)
      → In r (map (row_of db) es)
      → (e : Email) × In e es × (r ≡ row_of db e)
  map_row-In r [] i = absurd i
  map_row-In r (x ∷ xs) (inl h) = (x, inl refl, h)
  map_row-In r (x ∷ xs) (inr i) = let (e, j, h) = map_row-In r xs i in (e, inr j, h)

  -- The rows that the query returns are emails of the table that meet its condition.
  pub queue_rows-In :
      (limit : Option ℤ) (r : QueueRow)
      → In r (queue_rows user statuses limit archived db)
      → (e : Email) × In e db.emails
        × (r ≡ row_of db e)
        × (is_listed user statuses archived r ≡ true)
  unfolding queue_rows
  queue_rows-In limit r i =
      let (h, j) = where_rows-In (is_listed user statuses archived) r (map (row_of db) db.emails) (
        order_by-In_any listed_before r matching
          (take-In_any (query_limit limit) r (order_by listed_before matching) i)) in
      let (e, k, same) = map_row-In r db.emails j in (e, k, same, h)

-- The time of a row: that of its task, or that of its email where it has no task.
abbrev pub TimeIs : Email → Option Task → ℕ → Type 0
TimeIs e none k = e.created_at ≡ k
TimeIs e (some t) k = t.created_at ≡ k

abbrev pub RowTime : QueueRow → ℕ → Type 0
RowTime r k = TimeIs r.email r.task k

-- The first row is younger, or as old and with an id that is not less.
abbrev pub Younger : QueueRow → QueueRow → Type 0
Younger a b = (i j : ℕ) → RowTime a i → RowTime b j → (j ≤ i) × (i ≡ j → b.email.id ≤ a.email.id)

abbrev pub AllYounger : List QueueRow → Type 0
AllYounger [] = Unit {0}
AllYounger (r ∷ rs) = All (Younger r) rs × AllYounger rs

-- The limit is reached: 100 where none is asked for or it is not positive, at most 200.
abbrev pub IsFull : Option ℤ → ℕ → Type 0
IsFull none k = k ≡ 100
IsFull (some (negsuc n)) k = k ≡ 100
IsFull (some (pos n)) k = (n ≡ 0 → k ≡ 100) × (1 ≤ n → n ≤ 200 → k ≡ n) × (200 < n → k ≡ 200)

-- What the user has asked for: an email of the own mailbox, or any for the admin, as archived as
-- asked, with a task in one of the statuses where there are any.
pub record IsAsked (user : User) (statuses : List TaskStatus) (archived : Option Bool)
    (db : Database) (e : Email) : Type 0 where
  pub seen : (user.is_admin ≡ true) ⊎ (e.mailbox ≡ user.email)
  pub archive : (b : Bool) → archived ≡ some b → e.archived ≡ b
  pub status : (statuses ≡ []) ⊎ ((t : Task) × (shown_task e.id db ≡ some t) × In t.status statuses)

RowTime-date_of : (r : QueueRow) (k : ℕ) → RowTime r k → date_of r ≡ k
RowTime-date_of r k h = by_task r.task h
  where
    by_task : (o : Option Task) → TimeIs r.email o k → row_date r.email o ≡ k
    by_task none h = h
    by_task (some t) h = h

listed_before-Younger : (a b : QueueRow) → listed_before a b ≡ true → Younger a b
unfolding listed_before
listed_before-Younger a b h i j p q =
    ground (arith, h, RowTime-date_of a i p, RowTime-date_of b j q)

All-Younger :
    (a : QueueRow) (rs : List QueueRow)
    → All (λ r. listed_before a r ≡ true) rs
    → All (Younger a) rs
All-Younger a [] h = tt
All-Younger a (r ∷ rs) h = (listed_before-Younger a r h.0, All-Younger a rs h.1)

IsOrdered-AllYounger : (rs : List QueueRow) → IsOrdered listed_before rs → AllYounger rs
IsOrdered-AllYounger [] h = tt
IsOrdered-AllYounger (r ∷ rs) h = (All-Younger r rs h.0, IsOrdered-AllYounger rs h.1)

before-Younger :
    (rs : List QueueRow) (b : QueueRow)
    → All (λ r. listed_before r b ≡ true) rs
    → All (λ r. Younger r b) rs
before-Younger [] b h = tt
before-Younger (r ∷ rs) b h = (listed_before-Younger r b h.0, before-Younger rs b h.1)

query_limit-IsFull : (limit : Option ℤ) (k : ℕ) → k ≡ query_limit limit → IsFull limit k
unfolding query_limit
query_limit-IsFull none k h = h
query_limit-IsFull (some (negsuc n)) k h = h
query_limit-IsFull (some (pos n)) k h =
    (λ e. ground (arith, h, e), λ p q. ground (arith, h, p, q), λ p. ground (arith, h, p))

seen-can_see :
    (user : User) (e : Email)
    → (user.is_admin ≡ true) ⊎ (e.mailbox ≡ user.email)
    → can_see user e ≡ true
unfolding can_see
seen-can_see user e (inl h) = ground (arith, h)
seen-can_see user e (inr h) = ground (arith, text_beq_iff e.mailbox user.email, h)

archive-asked :
    (o : Option Bool) (e : Email)
    → ((b : Bool) → o ≡ some b → e.archived ≡ b)
    → archived_asked o e ≡ true
archive-asked none e h = refl
archive-asked (some true) e h = rw (h true refl) refl
archive-asked (some false) e h = rw (h false refl) refl

In-status_elem : (s : TaskStatus) (ss : List TaskStatus) → In s ss → status_elem s ss ≡ true
In-status_elem s [] i = absurd i
In-status_elem s (x ∷ xs) (inl e) = ground (arith, ap place e)
In-status_elem s (x ∷ xs) (inr i) = ground (arith, In-status_elem s xs i)

status-asked :
    (ss : List TaskStatus) (o : Option Task)
    → (ss ≡ []) ⊎ ((t : Task) × (o ≡ some t) × In t.status ss)
    → status_asked ss o ≡ true
unfolding status_asked
status-asked [] o h = refl
status-asked (s ∷ ss) none (inl e) = cc
status-asked (s ∷ ss) none (inr (t, e, i)) = cc
status-asked (s ∷ ss) (some u) (inl e) = cc
status-asked (s ∷ ss) (some u) (inr (t, e, i)) =
    ap (λ x. status_elem x.status (s ∷ ss)) (some_inj e) ∙ In-status_elem t.status (s ∷ ss) i

IsAsked-is_listed :
    (user : User) (statuses : List TaskStatus) (archived : Option Bool) (db : Database) (e : Email)
    → IsAsked user statuses archived db e
    → is_listed user statuses archived (row_of db e) ≡ true
unfolding is_listed
IsAsked-is_listed user statuses archived db e h = ground (
  arith,
  seen-can_see user e h.seen,
  status-asked statuses (shown_task e.id db) h.status,
  archive-asked archived e h.archive,
)

-- The rows of the query come with the youngest first, by the time of their tasks or else of their
-- emails, and with the greater id first among rows of one time; and every email of the table that the user
-- has asked for is among them, unless the limit is reached with rows that are all as young or
-- younger. The limit is 100, or the one that is asked for, but at most 200.
pub queue_rows_complete :
    (user : User) (statuses : List TaskStatus) (archived : Option Bool) (db : Database)
    (limit : Option ℤ) (e : Email)
    → In e db.emails
    → IsAsked user statuses archived db e
    → let rows = queue_rows user statuses limit archived db in
      AllYounger rows
      × (In (row_of db e) rows
          ⊎ (IsFull limit (length rows) × All (λ r. Younger r (row_of db e)) rows))
unfolding queue_rows
queue_rows_complete user statuses archived db limit e i asked =
    let h = IsAsked-is_listed user statuses archived db e asked in
    let found = matching user statuses archived db in
    let sorted = order_by-IsOrdered listed_before listed_before-IsTotal found in
    (
      IsOrdered-AllYounger (queue_rows user statuses limit archived db) (
          take-IsOrdered listed_before listed_before-IsTotal (query_limit limit)
            (order_by listed_before found) sorted),
      full_or_in (
          In-take_any listed_before listed_before-IsTotal (query_limit limit) (row_of db e)
            (order_by listed_before found) sorted
            (In-order_by_any listed_before (row_of db e) found (
              In-where_rows (is_listed user statuses archived) (row_of db e)
                (map (row_of db) db.emails) h
                (In-map_row user statuses archived db e db.emails i)))),
    )
  where
    full_or_in :
        In (row_of db e) (queue_rows user statuses limit archived db)
          ⊎ ((length (queue_rows user statuses limit archived db) ≡ query_limit limit)
              × All
                  (λ r. listed_before r (row_of db e) ≡ true)
                  (queue_rows user statuses limit archived db))
        → In (row_of db e) (queue_rows user statuses limit archived db)
          ⊎ (IsFull limit (length (queue_rows user statuses limit archived db))
              × All (λ r. Younger r (row_of db e)) (queue_rows user statuses limit archived db))
    full_or_in (inl j) = inl j
    full_or_in (inr (full, before)) =
        inr (query_limit-IsFull limit _ full, before-Younger _ (row_of db e) before)
