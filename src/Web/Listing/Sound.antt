-- ===== src/Web/Listing/Sound.antt =====
-- What a user gets from `get_queue`.
use mathlib.Core.Path.{subst}
use orders_agent.Base.{
  ℕ, suc, ◌≤◌, ◌≡◌, ◌≢◌, refl, sym, ap, ◌∙◌, Bool, true, false, ◌&&◌, Option, none, some, List, [],
  ◌∷◌, arith, inl, inr, map,
}
use orders_agent.Base.Lists.{All, length, length-map, length-take-le}
use orders_agent.Base.Text.{Text}
use orders_agent.Materials.Block.{ℤ, pos, negsuc}
use orders_agent.Database.Models.{TaskStatus, Email, Database}
use orders_agent.Database.Rows.{order_by}
use orders_agent.Database.Rows.Order.{In}
use orders_agent.Database.Rows.Total.{All-of}
use orders_agent.Web.{User, can_see}
use orders_agent.Web.Listing.Query.{
  shown_task, QueueRow, row_of, listed_before, status_names, cast_all, status_asked, archived_asked,
  is_listed, query_limit, queue_rows,
}
use orders_agent.Web.Listing.Items.{QueueItem, queue_item}
use orders_agent.Web.Listing.{
  list_queue_for_user, queue, queue_error, queue_items, queue_reply, clamped, get_queue,
}
use orders_agent.Web.Listing.Values.{Value}
use orders_agent.Web.Listing.Rows.{matching, queue_rows-In}

query_limit-clamped : (limit : Option ℤ) → query_limit (clamped limit) ≤ 200
unfolding query_limit clamped
query_limit-clamped none = omega arith
query_limit-clamped (some (negsuc n)) = omega arith
query_limit-clamped (some (pos n)) = ground arith

query_limit-pos : (n : ℕ) → query_limit (clamped (some (pos (suc n)))) ≤ suc n
unfolding query_limit clamped
query_limit-pos n = ground arith

-- What each entry of the list is.
abbrev pub Entry :
    (Text → Option Value)
    → (Value → Value)
    → User
    → List TaskStatus
    → Option Bool
    → Database
    → QueueItem
    → Type 0
Entry loads jsonb user statuses archived db i =
    (e : Email) × In e db.emails
    × (i ≡ queue_item loads jsonb db (row_of db e))
    × (can_see user e ≡ true)
    × (status_asked statuses (shown_task e.id db) ≡ true)
    × (archived_asked archived e ≡ true)

&&-true : (a b c : Bool) → (a && b && c) ≡ true → (a ≡ true) × (b ≡ true) × (c ≡ true)
&&-true true true true h = (refl, refl, refl)
&&-true true true false h = cc
&&-true true false c h = cc
&&-true false b c h = cc

module _ (loads : Text → Option Value) (jsonb : Value → Value) (user : User)
    (archived : Option Bool) (db : Database) where
  In-map_item :
      (i : QueueItem) (rs : List QueueRow)
      → In i (map (queue_item loads jsonb db) rs)
      → (r : QueueRow) × In r rs × (i ≡ queue_item loads jsonb db r)
  In-map_item i [] h = absurd h
  In-map_item i (r ∷ rs) (inl e) = (r, inl refl, e)
  In-map_item i (r ∷ rs) (inr h) = let (x, j, e) = In-map_item i rs h in (x, inr j, e)

  queue_item-Entry :
      (statuses : List TaskStatus) (limit : Option ℤ) (i : QueueItem)
      → In i (map (queue_item loads jsonb db) (queue_rows user statuses limit archived db))
      → Entry loads jsonb user statuses archived db i
  queue_item-Entry statuses limit i h =
      let (r, j, e) = In-map_item i (queue_rows user statuses limit archived db) h in
      let (x, k, same, listed) = queue_rows-In user statuses archived db limit r j in
      let (sees, asked, kept) =
        &&-true (can_see user x) (status_asked statuses (shown_task x.id db))
          (archived_asked archived x)
          (unfold_listed x (subst (λ y. is_listed user statuses archived y ≡ true) same listed)) in
      (x, k, e ∙ ap (queue_item loads jsonb db) same, sees, asked, kept)
    where
      unfold_listed :
          (x : Email)
          → is_listed user statuses archived (row_of db x) ≡ true
          → (can_see user x
              && status_asked statuses (shown_task x.id db)
              && archived_asked archived x)
            ≡ true
      unfold_listed x h = unfold is_listed in h

queue_inj :
    (u v : User) (m n : ℕ) (xs ys : List QueueItem)
    → queue u m xs ≡ queue v n ys
    → (u ≡ v) × (m ≡ n) × (xs ≡ ys)
queue_inj u v m n xs ys h = (cc, cc, cc)

no_queue : (u v : User) (n : ℕ) (xs : List QueueItem) (m : ℕ) → queue_error m ≢ queue v n xs
no_queue u v n xs m h = cc

-- What a reply with a list says.
abbrev pub Listed :
    (Text → Option Value)
    → (Value → Value)
    → Text
    → Option ℤ
    → Option Bool
    → Database
    → User
    → ℕ
    → List QueueItem
    → Type 0
Listed loads jsonb status limit archived db user count items =
    (count ≡ length items)
    × (count ≤ 200)
    × ((n : ℕ) → limit ≡ some (pos (suc n)) → count ≤ suc n)
    × ((statuses : List TaskStatus) × (cast_all (status_names status) ≡ some statuses)
        × All (Entry loads jsonb user statuses archived db) items)

module _ (loads : Text → Option Value) (jsonb : Value → Value) (user : User) (status : Text)
    (limit : Option ℤ) (archived : Option Bool) (db : Database) where
  rows_Listed :
      (statuses : List TaskStatus)
      → cast_all (status_names status) ≡ some statuses
      → let items =
          map (queue_item loads jsonb db) (queue_rows user statuses (clamped limit) archived db) in
        Listed loads jsonb status limit archived db user (length items) items
  rows_Listed statuses e =
      let rows = queue_rows user statuses (clamped limit) archived db in
      let items = map (queue_item loads jsonb db) rows in
      (
        refl,
        omega (arith, few statuses, query_limit-clamped limit),
        λ n h. omega (arith, few statuses, as_asked n h),
        (
          statuses,
          e,
          All-of _ items (queue_item-Entry loads jsonb user archived db statuses (clamped limit)),
        ),
      )
    where
      few :
          (ss : List TaskStatus)
          → length
              (map (queue_item loads jsonb db) (queue_rows user ss (clamped limit) archived db))
            ≤ query_limit (clamped limit)
      few ss =
          subst (λ n. n ≤ query_limit (clamped limit))
            (sym (
              length-map (queue_rows user ss (clamped limit) archived db)
                (queue_item loads jsonb db)))
            (unfold queue_rows in
              length-take-le (query_limit (clamped limit))
                (order_by listed_before (matching user ss archived db)))

      as_asked : (n : ℕ) → limit ≡ some (pos (suc n)) → query_limit (clamped limit) ≤ suc n
      as_asked n h = rw h (query_limit-pos n)

  by_cast :
      (o : Option (List TaskStatus)) (u : User) (count : ℕ) (items : List QueueItem)
      → cast_all (status_names status) ≡ o
      → queue_reply loads jsonb user (queue_items loads jsonb user (clamped limit) archived db o)
        ≡ queue u count items
      → (user ≡ u) × Listed loads jsonb status limit archived db u count items
  by_cast none u count items e h = absurd (no_queue user u count items 500 h)
  by_cast (some statuses) u count items e h =
      let xs =
        map (queue_item loads jsonb db) (queue_rows user statuses (clamped limit) archived db) in
      let (same, n, all) = queue_inj user u (length xs) count xs items h in
      (
        same,
        subst (λ v. Listed loads jsonb status limit archived db v count items) same
            (subst (λ ys. Listed loads jsonb status limit archived db user count ys) all
              (subst (λ k. Listed loads jsonb status limit archived db user k xs) n
                (rows_Listed statuses e))),
      )

-- A reply of `get_queue` with a list is to the user of the session and counts the entries of the
-- list, which are at most 200, and at most as many as a positive limit asks for. Each entry is made
-- of an email of the table whose mailbox the user sees and which meets the filter on archived
-- emails; the filter names statuses only, and where it names any, each entry has a task with one.
pub get_queue_sound :
    (loads : Text → Option Value) (jsonb : Value → Value) (session : Option User) (status : Text)
    (limit : Option ℤ) (archived : Option Bool) (db : Database) (user : User) (count : ℕ)
    (items : List QueueItem)
    → get_queue loads jsonb session status limit archived db ≡ queue user count items
    → (session ≡ some user) × Listed loads jsonb status limit archived db user count items
unfolding get_queue list_queue_for_user
get_queue_sound loads jsonb none status limit archived db user count items h =
    absurd (no_queue user user count items 401 h)
get_queue_sound loads jsonb (some u) status limit archived db user count items h =
    let (same, listed) =
      by_cast loads jsonb u status limit archived db (cast_all (status_names status)) user count
        items refl h in
    (ap some same, listed)
