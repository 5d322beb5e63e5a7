-- ===== src/Dict.antt =====
-- Python's `dict` with keys of type `str`: it keeps the order of insertion, and a new value for a
-- key that is there takes the old one's place.
use chess_pyspec.Base.{
  ◌≡◌, refl, ap, false, Option, none, some, List, [], ◌∷◌, ◌++◌, append_assoc, append-nil, arith,
  if◌then◌else◌, Text, text_eq, text_eq_iff, Bool-cases, inl, inr, sym, ◌∙◌, subst,
}

abbrev pub Dict {ℓ} : Type ℓ → Type ℓ
Dict V = List (Text × V)

module _ {ℓ} {V : Type ℓ} where
  -- `d.get(k)`
  unfoldable pub get : Dict V → Text → Option V
  get [] k = none
  get ((j, v) ∷ d) k = if text_eq j k then some v else get d k

  -- `d[k] = v`
  unfoldable pub set : Dict V → Text → V → Dict V
  set [] k v = (k, v) ∷ []
  set ((j, w) ∷ d) k v = let rest = set d k v in if text_eq j k then (j, v) ∷ d else (j, w) ∷ rest

  -- `del d[k]`, where `k in d`
  unfoldable pub remove : Dict V → Text → Dict V
  remove [] k = []
  remove ((j, w) ∷ d) k = let rest = remove d k in if text_eq j k then d else (j, w) ∷ rest

  -- `for k, v in kvs: d[k] = v`, and `d.update(kvs)`
  unfoldable pub put_all : Dict V → List (Text × V) → Dict V
  unfolding set
  put_all d [] = d
  put_all d ((k, v) ∷ kvs) = put_all (set d k v) kvs

  abbrev pub Fresh : Text → Dict V → Type 0
  Fresh k [] = Unit
  Fresh k ((j, w) ∷ d) = (text_eq j k ≡ false) × Fresh k d

  -- No key twice.
  abbrev pub IsDict : Dict V → Type 0
  IsDict [] = Unit
  IsDict ((k, v) ∷ d) = Fresh k d × IsDict d

  pub get-set :
      (d : Dict V) (k j : Text) (v : V)
      → get (set d k v) j ≡ (if text_eq k j then some v else get d j)
  unfolding get set
  get-set [] k j v = refl
  get-set ((i, w) ∷ d) k j v =
      ground (arith, text_eq_iff k j, text_eq_iff i k, text_eq_iff i j, get-set d k j v)

  pub get-Fresh : (d : Dict V) (k : Text) → Fresh k d → get d k ≡ none
  unfolding get
  get-Fresh [] k h = refl
  get-Fresh ((j, w) ∷ d) k h = rw h.0 (get-Fresh d k h.1)

  pub set-Fresh : (d : Dict V) (k : Text) (v : V) → Fresh k d → set d k v ≡ d ++ ((k, v) ∷ [])
  unfolding set
  set-Fresh [] k v h = refl
  set-Fresh ((j, w) ∷ d) k v h = rw h.0 (ap (◌∷◌ (j, w)) (set-Fresh d k v h.1))

  Fresh-set :
      (d : Dict V) (i k : Text) (v : V) → Fresh i d → text_eq k i ≡ false → Fresh i (set d k v)
  unfolding set
  Fresh-set [] i k v f h = (h, tt)
  Fresh-set ((j, w) ∷ d) i k v f h = ground (arith, Fresh-set d i k v f.1 h)

  pub set-IsDict : (d : Dict V) (k : Text) (v : V) → IsDict d → IsDict (set d k v)
  unfolding set
  set-IsDict [] k v h = (tt, tt)
  set-IsDict ((j, w) ∷ d) k v h =
      ground (arith, set-IsDict d k v h.1, Fresh-set d j k v h.0, text_eq_iff j k, text_eq_iff k j)

  Fresh-remove : (d : Dict V) (i k : Text) → Fresh i d → Fresh i (remove d k)
  unfolding remove
  Fresh-remove [] i k f = tt
  Fresh-remove ((j, w) ∷ d) i k f = ground (arith, Fresh-remove d i k f.1)

  pub remove-IsDict : (d : Dict V) (k : Text) → IsDict d → IsDict (remove d k)
  unfolding remove
  remove-IsDict [] k h = tt
  remove-IsDict ((j, w) ∷ d) k h = ground (arith, remove-IsDict d k h.1, Fresh-remove d j k h.0)

  pub get-remove :
      (d : Dict V) (k j : Text)
      → IsDict d
      → get (remove d k) j ≡ (if text_eq k j then none else get d j)
  unfolding get remove
  get-remove [] k j h = ground arith
  get-remove ((i, w) ∷ d) k j h = ground (
    arith,
    text_eq_iff k j,
    text_eq_iff i k,
    text_eq_iff i j,
    get-remove d k j h.1,
    get-Fresh d k,
  )

  Fresh-from-append :
      (d kvs : Dict V) (i k : Text) (v : V) → Fresh i (d ++ ((k, v) ∷ kvs)) → text_eq k i ≡ false
  Fresh-from-append [] kvs i k v h = h.0
  Fresh-from-append ((j, w) ∷ d) kvs i k v h = Fresh-from-append d kvs i k v h.1

  pub Fresh-append : (d kvs : Dict V) (k : Text) (v : V) → IsDict (d ++ ((k, v) ∷ kvs)) → Fresh k d
  Fresh-append [] kvs k v h = tt
  Fresh-append ((j, w) ∷ d) kvs k v h = (
    ground (arith, Fresh-from-append d kvs j k v h.0, text_eq_iff j k, text_eq_iff k j),
    Fresh-append d kvs k v h.1,
  )

  -- Items with new keys are put behind the others, in their order.
  pub put_all-append : (d kvs : Dict V) → IsDict (d ++ kvs) → put_all d kvs ≡ d ++ kvs
  unfolding put_all
  put_all-append d [] h = sym (append-nil d)
  put_all-append d ((k, v) ∷ kvs) h = rw (set-Fresh d k v (Fresh-append d kvs k v h)) (
      put_all-append (d ++ ((k, v) ∷ [])) kvs (rw (append_assoc d ((k, v) ∷ []) kvs) h)
      ∙ append_assoc d ((k, v) ∷ []) kvs)

  -- What a key holds after an update: the last of its new values, or what it held.
  pub get-put_all-Fresh :
      (d kvs : Dict V) (k : Text) → Fresh k kvs → get (put_all d kvs) k ≡ get d k
  unfolding put_all
  get-put_all-Fresh d [] k h = refl
  get-put_all-Fresh d ((j, v) ∷ kvs) k h =
      get-put_all-Fresh (set d j v) kvs k h.1 ∙ get-set d j k v ∙ rw h.0 refl

  pub get-put_all :
      (d kvs : Dict V) (k : Text)
      → IsDict kvs
      → get (put_all d kvs) k ≡ elim (get kvs k) [ none ↦ get d k | some v ↦ some v ]
  unfolding put_all get
  get-put_all d [] k h = refl
  get-put_all d ((j, v) ∷ kvs) k h = elim (Bool-cases (text_eq j k)) [
    | inl same ↦
        let e : j ≡ k = (text_eq_iff j k).0 same in
        rw same (
          get-put_all-Fresh (set d j v) kvs k (subst (λ x. Fresh x kvs) e h.0)
          ∙ get-set d j k v
          ∙ rw same refl)
    | inr differs ↦ ground (arith, get-put_all (set d j v) kvs k h.1, get-set d j k v)
  ]
