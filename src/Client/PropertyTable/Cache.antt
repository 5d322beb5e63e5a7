-- ===== src/Client/PropertyTable/Cache.antt =====
-- What a client reads from its property cache, and elements of associative arrays as properties.
use chess_pyspec.Base.{◌≡◌, refl, ◌∙◌, true, none, some, arith, Text, text_eq_refl}
use chess_pyspec.Base.Result.{Result, ok, or_raise, key_error}
use chess_pyspec.Dict.{get, set, IsDict, get-set}
use chess_pyspec.Platform.{Floats, Numpy}
use chess_pyspec.Payload.{Payload, of_element}
use chess_pyspec.AssociativeArray.{
  Element, num, str, Key, AssociativeArray, empty, compose_key, get_item, set_item, update,
}
use chess_pyspec.AssociativeArray.Items.{get_item-set_item, get_item-update}
use chess_pyspec.AssociativeArray.PropertyName.{get_key}
use chess_pyspec.Client.PropertyTable.{
  Data, Table, is_subscribed, update_cache, merge, key_of, to_element, pack, unpack,
  on_property_update, read,
}

module _ (fl : Floats) (np : Numpy) where
  stored :
      (k : Text × Text) (e : Element fl.F)
      → get_item fl (set_item fl empty (key_of fl np k) (some e)) (key_of fl np k) ≡ ok e
  stored k e =
      let c = compose_key fl (key_of fl np k) in
      get_item-set_item fl empty (key_of fl np k) (key_of fl np k) (some e)
      ∙ rw (text_eq_refl c) refl

  -- A property that names an element: what a write packs, an update with it unpacks to the value
  -- that was written.
  pub unpack-pack :
      (p : Text) {k : Text × Text} (e : Element fl.F)
      → get_key p ≡ some k
      → (w : Data fl np) × (pack fl np p (of_element e) ≡ some w)
        × (unpack fl np p w ≡ ok (of_element e))
  unfolding to_element pack set_item unpack
  unpack-pack p {k} (num v) h = (
    Payload.assoc (set_item fl empty (key_of fl np k) (some (num v))),
    rw (h, pack) refl,
    rw (h, unpack, stored k (num v)) refl,
  )
  unpack-pack p {k} (str t) h = (
    Payload.assoc (set_item fl empty (key_of fl np k) (some (str t))),
    rw (h, pack) refl,
    rw (h, unpack, stored k (str t)) refl,
  )

  -- After an update of a subscribed property a read gives the cached value merged with the
  -- update's, whatever the server would answer, and leaves the table as it is.
  pub read-on_property_update :
      (t : Table fl np) {u : Table fl np} (p : Text) (v : Data fl np) {w : Data fl np}
      (answer : Result (Data fl np))
      → is_subscribed fl np t p ≡ true
      → on_property_update fl np p v t ≡ ok (u, w)
      → read fl np p answer u ≡ ok (u, merge fl np (get t.cache p) w)
  unfolding on_property_update read is_subscribed update_cache
  read-on_property_update t p v {w} answer h e =
      ground (arith, get-set t.cache p p (merge fl np (get t.cache p) w), text_eq_refl p)

  -- An incremental update of an associative array: a key that it names reads as its value there,
  -- every other key as before.
  pub on_property_update-merge :
      (t : Table fl np) (p : Text) (old new : AssociativeArray fl.F)
      → get_key p ≡ none
      → get t.cache p ≡ some (Payload.assoc old)
      → IsDict new.items
      → (u : Table fl np) × (a : AssociativeArray fl.F) × (on_property_update fl np p
            (Payload.assoc new)
            t
          ≡ ok (u, Payload.assoc new))
        × (get u.cache p ≡ some (Payload.assoc a))
        × ((k : Key fl.F)
            → get_item fl a k ≡ elim (get new.items (compose_key fl k)) [
              | none ↦ get_item fl old k
              | some v ↦ or_raise v key_error
            ])
  unfolding on_property_update update_cache merge unpack
  on_property_update-merge t p old new hk hc hd = (
    record {
      watchers = t.watchers;
      cache = set t.cache p (Payload.assoc (update fl old new));
      calls = t.calls;
    },
    update fl old new,
    rw (hk, hc, on_property_update, unpack, update_cache) refl,
    rw (get-set t.cache p p (Payload.assoc (update fl old new)), text_eq_refl p) refl,
    λ k. get_item-update fl old new k hd,
  )
