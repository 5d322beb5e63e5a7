-- ===== src/Tests/ClientExamples.antt =====
-- The theorems on the client's side of a connection at concrete inputs.
use chess_pyspec.Base.{
  ℕ, ◌<◌, ◌≡◌, ◌≢◌, refl, true, none, some, [], ◌∷◌, ◌==◌, if◌then◌else◌, arith, Text, codes,
  text_eq,
}
use mathlib.Core.Option
use chess_pyspec.Base.Int.{pos}
use chess_pyspec.Base.Result.{ok, key_error, or_raise}
use chess_pyspec.Bytes.Words.{little, big}
use chess_pyspec.Dict.{get, set}
use chess_pyspec.Platform.{int}
use chess_pyspec.Payload.{Payload, of_element}
use chess_pyspec.AssociativeArray.{AssociativeArray, Key, num, str, compose_key, get_item}
use chess_pyspec.AssociativeArray.PropertyName.{get_key}
use chess_pyspec.Protocol.Command.{Command}
use chess_pyspec.Protocol.Messages.{Header, Clock, Message, serialize}
use chess_pyspec.Client.Sequence.{
  uint32_max, successor, next_number, after, next_number_total, after-distinct,
}
use chess_pyspec.Client.Requests.{Connection, taken, begin, on_message, dispatch, numbered}
use chess_pyspec.Client.Requests.Order
use chess_pyspec.Client.Requests.Order.{begin-on_message}
use chess_pyspec.Client.Requests.Replies
use chess_pyspec.Client.Requests.Replies.{
  Reachable-IsSound, future_of, effect, future_of-on_message,
}
use chess_pyspec.Client.PropertyTable.{
  Data, Table, is_subscribed, subscribe, on_property_update, pack, unpack, merge,
}
use chess_pyspec.Client.PropertyTable.Sharing.{
  Store, object, view, update_shared, view-update_shared,
}
use chess_pyspec.Client.PropertyTable.Watching
use chess_pyspec.Client.PropertyTable.Watching.{IsConsistent, Reachable-IsConsistent}
use chess_pyspec.Client.PropertyTable.Cache.{unpack-pack, on_property_update-merge}
use chess_pyspec.Tests.Instances.{floats, arrays}

abbrev name : Text
name = codes "var/A"

abbrev watching : Table floats arrays
watching =
    (subscribe floats arrays name (ok tt) (record { watchers = []; cache = []; calls = [] })).0

Reachable-IsConsistent_example : IsConsistent floats arrays watching
Reachable-IsConsistent_example =
    Reachable-IsConsistent floats arrays
      (Watching.steps Watching.starts (Watching.subscribes name (ok tt)))

watching_lem : is_subscribed floats arrays watching name ≡ true
unfolding is_subscribed subscribe get text_eq set
watching_lem = refl

abbrev five : Data floats arrays
five = Payload.num (int (pos 5))

abbrev updated : Table floats arrays
updated = record { watchers = watching.watchers; cache = set [] name five; calls = watching.calls }

updated_lem : on_property_update floats arrays name five watching ≡ ok (updated, five)
unfolding on_property_update subscribe get
updated_lem = refl

abbrev old_items : AssociativeArray floats.F
old_items = record {
  items = (codes "x", some (num (int (pos 1)))) ∷ (codes "y", some (num (int (pos 2)))) ∷ [];
}

abbrev new_items : AssociativeArray floats.F
new_items = record { items = (codes "y", some (num (int (pos 3)))) ∷ [] }

abbrev cached : Table floats arrays
cached = record { watchers = []; cache = (name, Payload.assoc old_items) ∷ []; calls = [] }

no_key : get_key name ≡ none
unfolding get_key
no_key = refl

cached_lem : get cached.cache name ≡ some (Payload.assoc old_items)
unfolding get text_eq
cached_lem = refl

on_property_update-merge_example :
    (u : Table floats arrays) × (a : AssociativeArray floats.F) × (on_property_update floats arrays
        name
        (Payload.assoc new_items)
        cached
      ≡ ok (u, Payload.assoc new_items))
    × (get u.cache name ≡ some (Payload.assoc a))
    × ((k : Key floats.F)
        → get_item floats a k ≡ elim (get new_items.items (compose_key floats k)) [
          | none ↦ get_item floats old_items k
          | some v ↦ or_raise v key_error
        ])
on_property_update-merge_example =
    on_property_update-merge floats arrays cached name old_items new_items no_key cached_lem
      (tt, tt)

abbrev element_name : Text
element_name = codes "var/A[x][2]"

element_key : get_key element_name ≡ some (codes "x", codes "2")
unfolding get_key
element_key = refl

unpack-pack_example :
    (w : Data floats arrays) × (pack floats arrays element_name (of_element (str (codes "up")))
      ≡ some w)
    × (unpack floats arrays element_name w ≡ ok (of_element (str (codes "up"))))
unpack-pack_example = unpack-pack floats arrays element_name (str (codes "up")) element_key

next_number_total_example : next_number 2 4294967294 ≡ some (successor 4294967294)
next_number_total_example = next_number_total 0 4294967294 (omega arith)

after-distinct_example :
    (0 < after 4 4294967290)
    × (after 4 4294967290 < uint32_max)
    × (after 4 4294967290 ≢ after 6 4294967290)
after-distinct_example = after-distinct 3 2 4294967290 (omega arith) (omega arith)

abbrev idle : Connection floats arrays
idle = record { last = 0; requests = []; peer = none }

abbrev now : Clock
now = record { sec = pos 1700000000; usec = pos 5 }

abbrev question : Header
question = record { command = Command.chan_read; sequence_number = pos 0; name = name }

abbrev asked : Connection floats arrays
asked = (begin floats arrays little question Payload.nothing now idle).0

asked-Reachable : Replies.Reachable floats arrays little asked
asked-Reachable =
    Replies.steps (Replies.starts {n = 0} (omega arith))
      (Replies.begins question Payload.nothing now)

abbrev answer : Message floats arrays
answer = record {
  header = record { command = Command.reply; sequence_number = pos 1; name = [] };
  payload = five;
  order = big;
}

future_of-on_message_example :
    future_of floats arrays (on_message floats arrays answer asked).requests 1
    ≡ Option.map
        (effect floats arrays (dispatch floats arrays answer) 1)
        (future_of floats arrays asked.requests 1)
future_of-on_message_example = future_of-on_message floats arrays answer 1 asked-Reachable

abbrev answered : Connection floats arrays
answered = on_message floats arrays answer asked

-- Another connection takes a number.
abbrev next : ℕ
next = successor asked.last

still-Quiet : Order.Quiet floats arrays little answered (taken floats arrays next answered)
unfolding on_message
still-Quiet =
    Order.then_others
      (next_number_total 0 asked.last (Reachable-IsSound floats arrays asked-Reachable).last_bound)
      Order.still

begin-on_message_example :
    ((begin floats arrays little question Payload.nothing now
        (taken floats arrays next answered)).0.last
      ≡ successor next)
    × (0 < successor next)
    × (successor next < uint32_max)
    × ((begin floats arrays little question Payload.nothing now
          (taken floats arrays next answered)).1
        ≡ serialize floats arrays little
            (numbered floats arrays question (successor next))
            Payload.nothing
            (some big)
            now)
unfolding taken
begin-on_message_example =
    begin-on_message floats arrays answer question Payload.nothing now asked-Reachable still-Quiet

-- Two properties that have one array cached, and another array
abbrev both : Store floats arrays
both = record {
  arrays = λ i. if i == 0 then old_items else new_items;
  cache = (name, object 0) ∷ (codes "var/B", object 0) ∷ [];
}

view-update_shared_example :
    view floats arrays (update_shared floats arrays name (object 1) both) (codes "var/B")
    ≡ some (merge floats arrays (some (Payload.assoc old_items)) (Payload.assoc new_items))
unfolding get text_eq
view-update_shared_example = view-update_shared floats arrays name (object 1) both (codes "var/B")
