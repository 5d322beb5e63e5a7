-- ===== src/AssociativeArray/Items.antt =====
-- Element access of an `AssociativeArray`, and its keys.
use chess_pyspec.Base.{
  ◌≡◌, ◌≢◌, refl, sym, ap, ◌∙◌, ◌↔◌, true, Option, none, some, List, [], ◌∷◌, arith, if◌then◌else◌,
  Text, text_eq,
}
use chess_pyspec.Base.Result.{ok, err, key_error, or_raise}
use chess_pyspec.Base.Texts.{Lacks, split, split-append, split-Lacks}
use chess_pyspec.Dict.{get, IsDict, get-set, get-remove, get-put_all}
use chess_pyspec.Platform.{Floats}
use chess_pyspec.AssociativeArray.{
  Element, str, Key, two, AssociativeArray, key_separator, compose_key, contains, get_item,
  set_item, del_item, update,
}

abbrev key_parts : Text → Text → List Text
key_parts a [] = a ∷ []
key_parts a (c ∷ cs) = a ∷ (c ∷ cs) ∷ []

module _ (fl : Floats) where
  open fl use {F}

  -- Reading after a write: the key that composes to the same text has the new value (or none, if
  -- None was written), and every other key reads as before.
  pub get_item-set_item :
      (a : AssociativeArray F) (k j : Key F) (v : Option (Element F))
      → get_item fl (set_item fl a k v) j ≡ (
          if text_eq (compose_key fl k) (compose_key fl j)
          then or_raise v key_error
          else get_item fl a j)
  unfolding get_item set_item
  get_item-set_item a k j v =
      ground (arith, get-set a.items (compose_key fl k) (compose_key fl j) v)

  -- A key is contained exactly when it can be read.
  pub contains_iff :
      (a : AssociativeArray F) (k : Key F)
      → (contains fl a k ≡ true) ↔ (get_item fl a k ≢ err key_error)
  unfolding contains get_item
  contains_iff a k = ground arith

  -- A deletion succeeds exactly on a key that is there. The key can then not be read, and every
  -- other key reads as before.
  pub get_item-del_item :
      (a : AssociativeArray F) (k j : Key F) {b : AssociativeArray F}
      → IsDict a.items
      → del_item fl a k ≡ ok b
      → get_item fl b j
        ≡ (if text_eq (compose_key fl k) (compose_key fl j) then err key_error else get_item fl a j)
  unfolding get_item del_item
  get_item-del_item a k j h e =
      ground (arith, get-remove a.items (compose_key fl k) (compose_key fl j) h)

  pub del_item_missing :
      (a : AssociativeArray F) (k : Key F)
      → get a.items (compose_key fl k) ≡ none
      → del_item fl a k ≡ err key_error
  unfolding del_item
  del_item_missing a k h = rw h refl

  -- After an incremental update, each key that the update names has the update's value, and every
  -- other key its old one.
  pub get_item-update :
      (a other : AssociativeArray F) (k : Key F)
      → IsDict other.items
      → get_item fl (update fl a other) k ≡ elim (get other.items (compose_key fl k)) [
        | none ↦ get_item fl a k
        | some v ↦ or_raise v key_error
      ]
  unfolding get_item update
  get_item-update a other k h = ground (arith, get-put_all a.items other.items (compose_key fl k) h)

  -- The parts of the composed text of two text keys.
  split-compose_key :
      (a b : Text)
      → Lacks key_separator a
      → Lacks key_separator b
      → split key_separator (compose_key fl (two (str a) (str b))) ≡ key_parts a b
  unfolding compose_key
  split-compose_key a [] ha hb = split-Lacks key_separator a ha
  split-compose_key a (c ∷ cs) ha hb =
      split-append key_separator a (c ∷ cs) ha ∙ ap (◌∷◌ a) (split-Lacks key_separator (c ∷ cs) hb)

  -- Two pairs of text keys that hold no separator compose to one text only if they are the same.
  pub compose_key-injective :
      (a b c d : Text)
      → Lacks key_separator a
      → Lacks key_separator b
      → Lacks key_separator c
      → Lacks key_separator d
      → compose_key fl (two (str a) (str b)) ≡ compose_key fl (two (str c) (str d))
      → (a ≡ c) × (b ≡ d)
  compose_key-injective a b c d ha hb hc hd e =
      same b d (
        sym (split-compose_key a b ha hb)
        ∙ ap (split key_separator) e
        ∙ split-compose_key c d hc hd)
    where
      same : (b d : Text) → key_parts a b ≡ key_parts c d → (a ≡ c) × (b ≡ d)
      same [] [] q = (cc, refl)
      same [] (y ∷ d) q = (cc, cc)
      same (x ∷ b) [] q = (cc, cc)
      same (x ∷ b) (y ∷ d) q = (cc, cc)
