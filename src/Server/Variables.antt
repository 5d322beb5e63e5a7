-- ===== src/Server/Variables.antt =====
-- The names of variables: `variable_property_name` and `Variable` of
-- pyspec/server/_remote_property.py.
use chess_pyspec.Base.{
  ℕ, ◌≡◌, refl, sym, ap, ◌∙◌, Bool, true, false, Bool-cases, inl, inr, some, [], ◌∷◌, ◌++◌, ◌==◌,
  ◌&&◌, drop, length, is_empty, arith, if◌then◌else◌, Text,
}
use chess_pyspec.Base.Texts.{rstrip}
use chess_pyspec.Base.Result.{ok}
use chess_pyspec.Dict.{get}
use chess_pyspec.Platform.{Floats, Numpy}
use chess_pyspec.Server.Commands.{var_prefix, resolve_variable_symbol}
use chess_pyspec.Server.State.{Python, Property, State}

unfoldable pub lstrip : ℕ → Text → Text
lstrip sep [] = []
lstrip sep (c ∷ cs) = let rest = lstrip sep cs in if c == sep then rest else c ∷ cs

-- `name.strip("/")`
unfoldable pub strip_slashes : Text → Text
unfolding lstrip rstrip
strip_slashes t = rstrip b'/' (lstrip b'/' t)

-- `t.startswith(s)`
unfoldable pub starts_with : Text → Text → Bool
starts_with [] t = true
starts_with (c ∷ cs) [] = false
starts_with (c ∷ cs) (d ∷ ds) = c == d && starts_with cs ds

abbrev canonical : Text → Bool → Text
canonical t true = t
canonical t false = var_prefix ++ t

unfoldable pub variable_property_name : Text → Text
unfolding strip_slashes starts_with
variable_property_name t = canonical (strip_slashes t) (starts_with var_prefix (strip_slashes t))

-- `full_name[len("var/"):]`
unfoldable pub variable_name : Text → Text
unfolding variable_property_name
variable_name t = drop 4 (variable_property_name t)

rstrip-end :
    (sep c : ℕ) (t : Text) → rstrip sep t ≡ t → is_empty t ≡ false → rstrip sep (c ∷ t) ≡ c ∷ t
unfolding rstrip
rstrip-end sep c t h k = rw (h, rstrip) (rw k refl)

rstrip_twice : (sep : ℕ) (t : Text) → rstrip sep (rstrip sep t) ≡ rstrip sep t
unfolding rstrip
rstrip_twice sep [] = refl
rstrip_twice sep (c ∷ t) = elim (Bool-cases (is_empty (rstrip sep t) && c == sep)) [
  | inl h ↦ rw (h, rstrip) refl
  | inr h ↦ rw (h, rstrip) (rw (rstrip_twice sep t, rstrip) (rw h refl))
]

starts_with-drop : (s t : Text) → starts_with s t ≡ true → s ++ drop (length s) t ≡ t
unfolding starts_with
starts_with-drop [] t h = refl
starts_with-drop (c ∷ cs) [] h = cc
starts_with-drop (c ∷ cs) (d ∷ ds) h = ground (arith, starts_with-drop cs ds)

lstrip-starts : (t : Text) → starts_with var_prefix t ≡ true → lstrip b'/' t ≡ t
unfolding starts_with lstrip
lstrip-starts [] h = cc
lstrip-starts (c ∷ t) h = ground arith

rstrip-strip_slashes : (t : Text) → rstrip b'/' (strip_slashes t) ≡ strip_slashes t
unfolding strip_slashes
rstrip-strip_slashes t = rstrip_twice b'/' (lstrip b'/' t)

strip_slashes-starts :
    (t : Text) → starts_with var_prefix t ≡ true → rstrip b'/' t ≡ t → strip_slashes t ≡ t
unfolding strip_slashes
strip_slashes-starts t h k = ap (rstrip b'/') (lstrip-starts t h) ∙ k

starts_with-prefix : (t : Text) → starts_with var_prefix (var_prefix ++ t) ≡ true
unfolding starts_with
starts_with-prefix t = refl

rstrip-prefix :
    (t : Text)
    → rstrip b'/' t ≡ t
    → is_empty t ≡ false
    → rstrip b'/' (var_prefix ++ t) ≡ var_prefix ++ t
rstrip-prefix t h k =
    rstrip-end b'/' b'v' _
      (rstrip-end b'/' b'a' _ (rstrip-end b'/' b'r' _ (rstrip-end b'/' b'/' t h k) refl) refl) refl

canonical_stays :
    (t : Text) → starts_with var_prefix t ≡ true → rstrip b'/' t ≡ t → variable_property_name t ≡ t
unfolding variable_property_name
canonical_stays t h k = rw (strip_slashes-starts t h k) (rw h refl)

canonical-eq :
    (t : Text) {b : Bool}
    → starts_with var_prefix (strip_slashes t) ≡ b
    → variable_property_name t ≡ canonical (strip_slashes t) b
unfolding variable_property_name
canonical-eq t k = ap (canonical (strip_slashes t)) k

variable_property_name-starts :
    (t : Text) → starts_with var_prefix (variable_property_name t) ≡ true
variable_property_name-starts t = elim (Bool-cases (starts_with var_prefix (strip_slashes t))) [
  | inl k ↦ ap (starts_with var_prefix) (canonical-eq t k) ∙ k
  | inr k ↦ ap (starts_with var_prefix) (canonical-eq t k) ∙ starts_with-prefix (strip_slashes t)
]

rstrip-variable_property_name :
    (t : Text)
    → is_empty (strip_slashes t) ≡ false
    → rstrip b'/' (variable_property_name t) ≡ variable_property_name t
rstrip-variable_property_name t h = elim (Bool-cases (starts_with var_prefix (strip_slashes t))) [
  | inl k ↦ ap (rstrip b'/') (canonical-eq t k) ∙ rstrip-strip_slashes t ∙ sym (canonical-eq t k)
  | inr k ↦
      ap (rstrip b'/') (canonical-eq t k)
      ∙ rstrip-prefix (strip_slashes t) (rstrip-strip_slashes t) h
      ∙ sym (canonical-eq t k)
]

-- Where a name has a character other than a slash, the property name of a variable is normal: making it again
-- changes nothing.
pub variable_property_name_twice :
    (t : Text)
    → is_empty (strip_slashes t) ≡ false
    → variable_property_name (variable_property_name t) ≡ variable_property_name t
variable_property_name_twice t h =
    canonical_stays (variable_property_name t) (variable_property_name-starts t)
      (rstrip-variable_property_name t h)

module _ {fl : Floats} {np : Numpy} (env : Python fl np) where
  open env use {py}

  -- A variable that is registered under its property name is what its short name resolves to.
  pub resolve-variable_name :
      (s : State fl np env) (t : Text) {q : Property fl np}
      → get s.properties (variable_property_name t) ≡ some q
      → resolve_variable_symbol env s (variable_name t) ≡ ok (py.of_data q.value)
  unfolding resolve_variable_symbol variable_name
  resolve-variable_name s t {q} h =
      let same : var_prefix ++ variable_name t ≡ variable_property_name t =
        starts_with-drop var_prefix (variable_property_name t) (variable_property_name-starts t) in
      let found : get s.properties (var_prefix ++ variable_name t) ≡ some q =
        ap (get s.properties) same ∙ h in
      rw (found, resolve_variable_symbol) refl
