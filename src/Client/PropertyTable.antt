-- ===== src/Client/PropertyTable.antt =====
-- The class `RemotePropertyTable` of pyspec/client/_remote_property_table.py, and the elements of
-- associative arrays as properties of their own (pyspec/_connection/associative_array.py).
pub mod Watching
pub mod Cache
pub mod Sharing
use chess_pyspec.Base.{
  ℕ, ◌+◌, ◌-◌, ◌≤◌, ◌<◌, ◌≡◌, Bool, true, false, Option, none, some, List, [], ◌∷◌, ◌++◌, arith,
  ltb, leb, ◌==◌, if◌then◌else◌, Text, codes,
}
use mathlib.Core.Option
use chess_pyspec.Base.Result.{Result, ok, err, key_error, type_error, ◌>>=◌, or_raise}
use chess_pyspec.Dict.{Dict, get, set, remove}
use chess_pyspec.Platform.{Floats, Numpy}
use chess_pyspec.Payload.{Payload, of_element}
use chess_pyspec.AssociativeArray.{
  Element, Key, AssociativeArray, empty, get_item, set_item, update,
}
use chess_pyspec.AssociativeArray.PropertyName.{get_key}

-- What the table makes its connection send: REGISTER and UNREGISTER.
pub data Request : Type 0 where
  prop_watch : Text → Request
  prop_unwatch : Text → Request

abbrev pub count : Option ℕ → ℕ
count none = 0
count (some n) = n

-- `_increment_watcher`: the counts with one more, and whether it is the first.
unfoldable pub increment_watcher : Dict ℕ → Text → Dict ℕ × Bool
increment_watcher d p = let n = count (get d p) + 1 in (set d p n, n == 1)

-- `_decrement_watcher`
unfoldable pub decrement_watcher : Dict ℕ → Text → Dict ℕ × Bool
decrement_watcher d p = elim (get d p) [
  | none ↦ (d, false)
  | some n ↦ if leb n 1 then (remove d p, true) else (set d p (n - 1), false)
]

-- A call of the connection's method for a request, and whether it returned: it raises where the
-- name is too long for a message or the connection is closed.
abbrev pub Call : Type 0
Call = Request × Bool

abbrev pub returned : Result (Unit {0}) → Bool
returned (ok u) = true
returned (err e) = false

-- The calls so far, and what the method gives, where it is called with this answer
abbrev call_if : Bool → Request → Result (Unit {0}) → List Call → List Call × Result (Unit {0})
call_if true r answer calls = (calls ++ ((r, returned answer) ∷ []), answer)
call_if false r answer calls = (calls, ok tt)

module _ (fl : Floats) (np : Numpy) where
  abbrev pub Data : Type 0
  Data = Payload fl.F np.Array

  -- `calls` are the calls for requests so far, in order.
  pub record Table : Type 0 where
    pub watchers : Dict ℕ
    pub cache : Dict Data
    pub calls : List Call

  unfoldable pub is_subscribed : Table → Text → Bool
  is_subscribed t p = elim (get t.watchers p) [ none ↦ false | some n ↦ ltb 0 n ]

  -- `subscribe`, where `answer` is what `prop_watch` gives if it is called. The count stays where
  -- it raises.
  unfoldable pub subscribe : Text → Result (Unit {0}) → Table → Table × Result (Unit {0})
  unfolding increment_watcher
  subscribe p answer t =
      let r = increment_watcher t.watchers p in
      let c = call_if r.1 (prop_watch p) answer t.calls in
      (record { watchers = r.0; cache = t.cache; calls = c.0 }, c.1)

  unfoldable pub unsubscribe : Text → Result (Unit {0}) → Table → Table × Result (Unit {0})
  unfolding decrement_watcher
  unsubscribe p answer t =
      let r = decrement_watcher t.watchers p in
      let c = call_if r.1 (prop_unwatch p) answer t.calls in
      (record { watchers = r.0; cache = t.cache; calls = c.0 }, c.1)

  -- `_update_cache`: an associative array is merged into the cached one. The values of this table are
  -- not shared; Sharing has the arrays as objects, which are merged in place.
  unfoldable pub merge : Option Data → Data → Data
  merge (some (Payload.assoc old)) (Payload.assoc new) = Payload.assoc (update fl old new)
  merge _ v = v

  unfoldable pub update_cache : Text → Data → Dict Data → Dict Data
  unfolding merge
  update_cache p v d = set d p (merge (get d p) v)

  -- The two texts that `get_associative_array_key` returns.
  abbrev pub key_of : Text × Text → Key fl.F
  key_of (a, b) = Key.two (Element.str a) (Element.str b)

  unfoldable pub unpack : Text → Data → Result Data
  unpack p (Payload.assoc a) = elim (get_key p) [
    | none ↦ ok (Payload.assoc a)
    | some k ↦ get_item fl a (key_of k) >>= λ e. ok (of_element e)
  ]
  unpack p v = ok v

  -- The elements that the model's associative arrays hold: texts, numbers and None. For another
  -- array as an element, which the code takes, the model has no result.
  unfoldable pub to_element : Data → Option (Option (Element fl.F))
  to_element (Payload.text t) = some (some (Element.str t))
  to_element (Payload.error t) = some (some (Element.str t))
  to_element (Payload.num v) = some (some (Element.num v))
  to_element Payload.nothing = some none
  to_element _ = none

  unfoldable pub pack : Text → Data → Option Data
  unfolding to_element
  pack p v = elim (get_key p) [
    | none ↦ some v
    | some k ↦ Option.map (λ e. Payload.assoc (set_item fl empty (key_of k) e)) (to_element v)
  ]

  -- `_on_property_update`: the new table, and the value that the listeners of the property get.
  unfoldable pub on_property_update : Text → Data → Table → Result (Table × Data)
  unfolding unpack update_cache
  on_property_update p v t = do
    w ← unpack p v
    ok (record { watchers = t.watchers; cache = update_cache p w t.cache; calls = t.calls }, w)

  -- `write`: the new table, and the value of the CHAN_SEND message.
  unfoldable pub write : Text → Data → Table → Option (Table × Data)
  unfolding pack update_cache
  write p v t =
      Option.map
        (λ w.
          (record { watchers = t.watchers; cache = update_cache p v t.cache; calls = t.calls }, w))
        (pack p v)

  -- `read`, where `answer` is what the server replies if it is asked.
  unfoldable pub read : Text → Result Data → Table → Result (Table × Data)
  unfolding unpack update_cache is_subscribed
  read p answer t =
      let fetched = answer >>= unpack p in
      if is_subscribed t p
      then elim (get t.cache p) [
        | some v ↦ ok (t, v)
        | none ↦ fetched >>= λ v.
            ok (
              record { watchers = t.watchers; cache = update_cache p v t.cache; calls = t.calls },
              v,
            )
      ]
      else (fetched >>= λ v. ok (t, v))
