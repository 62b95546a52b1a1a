-- ===== src/Database/Mappings/Store.antt =====
-- What `MappingRepository` promises: a partial function from sources to matches, and what each of
-- its methods does to it and says.
use orders_agent.Base.{Bool, true, false, Option, none, some, List, [], ◌∷◌, is_some, if◌then◌else◌}
use orders_agent.Base.Text.{Text, text_beq}
use orders_agent.Database.Models.{Mapping}
use orders_agent.Database.Mappings.{
  Match, match_of, find, add, batch_add, keep_or, keep_text, update, delete,
}
use orders_agent.Database.Mappings.Find.{stored}

-- The calls of the methods that change the table.
pub data Command : Type 0 where
  add_one : Mapping → Command
  add_batch : List Mapping → Command
  change : Text → Option Text → Option Text → Option Bool → Command
  remove : Text → Command

-- What a call returns, or that it raises.
pub data Said : Type 0 where
  returned raised : Said
  told : Bool → Said

abbrev pub Store : Type 0
Store = Text → Option Match

abbrev pub view : List Mapping → Store
view ms = λ s. find s ms

abbrev pub put : Text → Match → Store → Store
put s m v = λ k. if text_beq s k then some m else v k

abbrev pub drop_source : Text → Store → Store
drop_source s v = λ k. if text_beq s k then none else v k

abbrev pub patch : Option Text → Option Text → Option Bool → Match → Match
patch target article black_list (t, a, b) =
    (keep_text target t, keep_text article a, keep_or black_list b)

abbrev pub put_one : Mapping → Store → Store
put_one m v = put m.source (stored m (v m.source)) v

abbrev pub put_all : List Mapping → Store → Store
put_all [] v = v
put_all (m ∷ ms) v = put_all ms (put_one m v)

abbrev pub changed : Text → (Match → Store) → Store → Option Match → Store × Said
changed s f v none = (v, told false)
changed s f v (some m) = (f m, told true)

-- The promise: `accepts` is the database's verdict on a statement of `batch_add`.
unfoldable pub promised : (List Mapping → Bool) → Command → Store → Store × Said
promised accepts (add_one m) v =
    if is_some (v m.source) then (v, raised) else (put m.source (match_of m) v, returned)
promised accepts (add_batch ms) v = if accepts ms then (put_all ms v, returned) else (v, raised)
promised accepts (change s target article black_list) v =
    changed s (λ m. put s (patch target article black_list m) v) v (v s)
promised accepts (remove s) v = changed s (λ m. drop_source s v) v (v s)

abbrev pub or_raised : List Mapping → Option (List Mapping) → List Mapping × Said
or_raised ms none = (ms, raised)
or_raised ms (some ms') = (ms', returned)

abbrev pub saying : List Mapping × Bool → List Mapping × Said
saying (ms, b) = (ms, told b)

-- The methods themselves.
unfoldable pub call : (List Mapping → Bool) → Command → List Mapping → List Mapping × Said
unfolding add batch_add update delete
call accepts (add_one m) ms = or_raised ms (add m ms)
call accepts (add_batch items) ms = or_raised ms (batch_add accepts items ms)
call accepts (change s target article black_list) ms =
    saying (update s target article black_list ms)
call accepts (remove s) ms = saying (delete s ms)

-- One call after the other, with what each says.
abbrev pub and_then {ℓ} : {S : Type ℓ} → Said → S × List Said → S × List Said
and_then said (s, rest) = (s, said ∷ rest)

unfoldable pub call_all :
    (List Mapping → Bool) → List Command → List Mapping → List Mapping × List Said
unfolding call
call_all accepts [] ms = (ms, [])
call_all accepts (c ∷ cs) ms =
    let (ms', said) = call accepts c ms in and_then said (call_all accepts cs ms')

unfoldable pub promised_all : (List Mapping → Bool) → List Command → Store → Store × List Said
unfolding promised
promised_all accepts [] v = (v, [])
promised_all accepts (c ∷ cs) v =
    let (v', said) = promised accepts c v in and_then said (promised_all accepts cs v')
