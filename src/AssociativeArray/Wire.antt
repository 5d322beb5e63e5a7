-- ===== src/AssociativeArray/Wire.antt =====
-- What an `AssociativeArray` becomes when it is serialized and deserialized.
use chess_pyspec.Base.{
  ◌≡◌, refl, ap, ◌∙◌, Bool, Option, none, some, List, [], ◌∷◌, ◌++◌, map, if◌then◌else◌, Text,
  Bytes, All,
}
use chess_pyspec.Base.Result.{ok}
use chess_pyspec.Base.Texts.{
  Lacks, split, split-terminated, init, init-append, join, terminated, join-terminated,
}
use chess_pyspec.Bytes.Utf8.{decode-encode}
use chess_pyspec.Dict.{Dict, Fresh, IsDict, put_all, put_all-append}
use chess_pyspec.Platform.{Floats}
use chess_pyspec.AssociativeArray.{
  Element, AssociativeArray, item_separator, try_cast, value_text, key_values, serialize, by_two,
  load, deserialize,
}

module _ (fl : Floats) where
  open fl use {F}

  -- The items as they arrive: each value is the cast of its text, or None in a deletion event.
  abbrev pub received_items : Bool → Dict (Option (Element F)) → Dict (Option (Element F))
  received_items deleted [] = []
  received_items deleted ((k, v) ∷ d) =
      (k, if deleted then none else some (try_cast fl (value_text fl v))) ∷ received_items deleted d

  -- No key and no value's text holds the separator of items.
  abbrev pub IsClean : Dict (Option (Element F)) → Type 0
  IsClean [] = Unit
  IsClean ((k, v) ∷ d) = Lacks item_separator k × Lacks item_separator (value_text fl v) × IsClean d

  received-Fresh :
      (deleted : Bool) (k : Text) (d : Dict (Option (Element F)))
      → Fresh k d
      → Fresh k (received_items deleted d)
  received-Fresh deleted k [] h = tt
  received-Fresh deleted k ((j, v) ∷ d) h = (h.0, received-Fresh deleted k d h.1)

  received-IsDict :
      (deleted : Bool) (d : Dict (Option (Element F)))
      → IsDict d
      → IsDict (received_items deleted d)
  received-IsDict deleted [] h = tt
  received-IsDict deleted ((k, v) ∷ d) h =
      (received-Fresh deleted k d h.0, received-IsDict deleted d h.1)

  key_values-Lacks :
      (d : Dict (Option (Element F))) → IsClean d → All (Lacks item_separator) (key_values fl d)
  unfolding key_values
  key_values-Lacks [] h = tt
  key_values-Lacks ((k, v) ∷ d) h = (h.0, (h.1, key_values-Lacks d h.2))

  abbrev cast_items : Bool → List (Text × Text) → Dict (Option (Element F))
  cast_items deleted kvs = map (λ kv. (kv.0, if deleted then none else some (try_cast fl kv.1))) kvs

  by_two-key_values :
      (deleted : Bool) (d : Dict (Option (Element F)))
      → cast_items deleted (by_two (key_values fl d)) ≡ received_items deleted d
  unfolding by_two key_values
  by_two-key_values deleted [] = refl
  by_two-key_values deleted ((k, v) ∷ d) =
      ap
        (λ (t : Dict (Option (Element F))).
          (k, if deleted then none else some (try_cast fl (value_text fl v))) ∷ t)
        (by_two-key_values deleted d)

  load-parts :
      (deleted : Bool) (d : Dict (Option (Element F)))
      → IsDict d
      → load fl deleted (by_two (key_values fl d)) ≡ received_items deleted d
  unfolding load
  load-parts deleted d h =
      ap (put_all []) (by_two-key_values deleted d)
      ∙ put_all-append [] (received_items deleted d) (received-IsDict deleted d h)

  wire_text :
      (k : Text) (v : Option (Element F)) (d : Dict (Option (Element F)))
      → join item_separator (key_values fl ((k, v) ∷ d)) ++ (item_separator ∷ [])
        ≡ terminated item_separator (key_values fl ((k, v) ∷ d))
  unfolding key_values
  wire_text k v d = join-terminated item_separator k (value_text fl v ∷ key_values fl d)

  -- The parts of the serialized text, less the one behind the last separator.
  parts :
      (d : Dict (Option (Element F)))
      → IsClean d
      → by_two (
          init
            (split item_separator (join item_separator (key_values fl d) ++ (item_separator ∷ []))))
        ≡ by_two (key_values fl d)
  parts [] h = unfold by_two init split key_values join in refl
  parts ((k, v) ∷ d) h =
      ap (λ t. by_two (init t))
        (ap (split item_separator) (wire_text k v d)
          ∙ split-terminated item_separator (key_values fl ((k, v) ∷ d))
              (key_values-Lacks ((k, v) ∷ d) h))
      ∙ ap by_two (init-append (key_values fl ((k, v) ∷ d)) [])

  -- An array whose keys and values hold no separator arrives with the same keys in the same order,
  -- and each value is the cast of the text that was sent for it; in a deletion event each is None.
  pub deserialize-serialize :
      (a : AssociativeArray F) (deleted : Bool) {bytes : Bytes}
      → IsDict a.items
      → IsClean a.items
      → serialize fl a ≡ ok bytes
      → deserialize fl bytes deleted ≡ ok (record { items = received_items deleted a.items })
  unfolding serialize deserialize
  deserialize-serialize a deleted h c e = rw (decode-encode _ e) (
      ap (λ x. ok (record { items = load fl deleted x })) (parts a.items c)
      ∙ ap (λ x. ok (record { items = x })) (load-parts deleted a.items h))
