-- ===== src/Client/PropertyTable/Sharing.antt =====
-- `_update_cache` of pyspec/client/_remote_property_table.py on objects: an associative array that is
-- cached is changed in place, for every property and caller that holds it.
use chess_pyspec.Base.{
  ℕ, ◌≡◌, refl, Bool, true, false, ◌||◌, Option, none, some, arith, ◌==◌, if◌then◌else◌, Text,
  text_eq, text_eq_iff,
}
use mathlib.Core.Option
use chess_pyspec.Dict.{Dict, get, set, get-set}
use chess_pyspec.Platform.{Floats, Numpy, Number}
use chess_pyspec.Payload.{Payload}
use chess_pyspec.AssociativeArray.{AssociativeArray, update}
use chess_pyspec.Client.PropertyTable.{Data, merge}

module _ (fl : Floats) (np : Numpy) where
  -- A value as the program holds it: an associative array by its address, the others, which nothing
  -- here changes, as they are
  pub data Held : Type 0 where
    object : ℕ → Held
    text error : Text → Held
    num : Number fl.F → Held
    array : np.Array → Held
    nothing : Held

  -- The arrays by their addresses, and what is cached
  pub record Store : Type 0 where
    pub arrays : ℕ → AssociativeArray fl.F
    pub cache : Dict Held

  -- What a value is at the moment
  abbrev pub seen : Store → Held → Data fl np
  seen s (object i) = Payload.assoc (s.arrays i)
  seen s (text t) = Payload.text t
  seen s (error t) = Payload.error t
  seen s (num v) = Payload.num v
  seen s (array a) = Payload.array a
  seen s nothing = Payload.nothing

  abbrev pub view : Store → Text → Option (Data fl np)
  view s p = Option.map (seen s) (get s.cache p)

  -- `existing.update(value)`
  abbrev pub merged : ℕ → ℕ → Store → Store
  merged i j s = record s {
    arrays = λ k. if k == i then update fl (s.arrays i) (s.arrays j) else s.arrays k;
  }

  -- `_update_cache`, for what is cached and the new value
  unfoldable pub update_held : Text → Option Held → Held → Store → Store
  update_held p (some (object i)) (object j) s = merged i j s
  update_held p c v s = record s { cache = set s.cache p v }

  unfoldable pub update_shared : Text → Held → Store → Store
  unfolding update_held
  update_shared p v s = update_held p (get s.cache p) v s

  -- Whether the array that q has cached is the one that an update of p with this value changes
  abbrev pub touched : Option Held → Option Held → Held → Bool
  touched (some (object i)) (some (object k)) (object j) = k == i
  touched _ _ _ = false

  IsMerge : Text → Option Held → Held → Store → Text → Type 0
  IsMerge p c v s q = view (update_held p c v s) q ≡ (
      if text_eq p q || touched c (get s.cache q) v
      then some (merge fl np (Option.map (seen s) c) (seen s v))
      else view s q)

  -- Where the cached value is replaced
  replaced :
      (p : Text) (v : Held) (s : Store) (q : Text)
      → Option.map (seen s) (get (set s.cache p v) q)
        ≡ (if text_eq p q then some (seen s v) else view s q)
  replaced p v s q = rw (get-set s.cache p q v) (ground arith)

  in_place :
      (p : Text) (i j : ℕ) (s : Store) (q : Text) (c : Option Held)
      → get s.cache p ≡ some (object i)
      → get s.cache q ≡ c
      → IsMerge p (some (object i)) (object j) s q
  unfolding IsMerge update_held merge
  in_place p i j s q c e h = ground (arith, text_eq_iff p q, e, h)

  -- Whether both are associative arrays
  is_merge : Option Held → Held → Bool
  is_merge (some (object i)) (object j) = true
  is_merge _ _ = false

  merge_other :
      (c : Option Held) (v : Held) (s : Store)
      → is_merge c v ≡ false
      → merge fl np (Option.map (seen s) c) (seen s v) ≡ seen s v
  unfolding is_merge merge
  merge_other (some (object i)) (object j) s h = cc
  merge_other (some (object i)) _ s h = refl
  merge_other (some _) _ s h = refl
  merge_other none _ s h = refl

  update_other :
      (p : Text) (c : Option Held) (v : Held) (s : Store)
      → is_merge c v ≡ false
      → update_held p c v s ≡ record s { cache = set s.cache p v }
  unfolding is_merge update_held
  update_other p (some (object i)) (object j) s h = cc
  update_other p (some (object i)) _ s h = refl
  update_other p (some _) _ s h = refl
  update_other p none _ s h = refl

  touched_other : (c d : Option Held) (v : Held) → is_merge c v ≡ false → touched c d v ≡ false
  unfolding is_merge
  touched_other (some (object i)) d (object j) h = cc
  touched_other (some (object i)) none _ h = refl
  touched_other (some (object i)) (some (object k)) _ h = refl
  touched_other (some (object i)) (some _) _ h = refl
  touched_other (some _) _ _ h = refl
  touched_other none _ _ h = refl

  or_false : (b : Bool) → (b || false) ≡ b
  or_false true = refl
  or_false false = refl

  elsewhere :
      (p : Text) (c : Option Held) (v : Held) (s : Store) (q : Text)
      → is_merge c v ≡ false
      → IsMerge p c v s q
  unfolding IsMerge
  elsewhere p c v s q h =
      rw
        (
          update_other p c v s h,
          touched_other c (get s.cache q) v h,
          merge_other c v s h,
          or_false (text_eq p q),
        )
        (replaced p v s q)

  -- After `_update_cache` of a property, what it has cached is the old value merged with the new one;
  -- the same holds for every property that has the same associative array cached, where it is
  -- changed in place, and every other property has what it had.
  pub view-update_shared :
      (p : Text) (v : Held) (s : Store) (q : Text)
      → view (update_shared p v s) q ≡ (
          if text_eq p q || touched (get s.cache p) (get s.cache q) v
          then some (merge fl np (view s p) (seen s v))
          else view s q)
  unfolding update_shared IsMerge
  view-update_shared p v s q = by_case (get s.cache p) v refl
    where
      by_case : (c : Option Held) (w : Held) → get s.cache p ≡ c → IsMerge p c w s q
      by_case (some (object i)) (object j) e = in_place p i j s q (get s.cache q) e refl
      by_case (some (object i)) w e = elsewhere p (some (object i)) w s q (unfold is_merge in refl)
      by_case (some h) w e = elsewhere p (some h) w s q (unfold is_merge in refl)
      by_case none w e = elsewhere p none w s q (unfold is_merge in refl)
