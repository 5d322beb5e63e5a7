-- ===== src/Protocol/Layout.antt =====
-- The choice of a header structure: `HEADER_STRUCT_MAP` and `_determine_header_struct`.
use chess_pyspec.Base.{
  ℕ, ◌≤◌, ◌<◌, ◌≡◌, ◌≢◌, refl, ap, ◌∙◌, leb, Option-cases, Bool-cases, ◌⊎◌, inl, inr, Option, none,
  some, List, [], ◌∷◌, arith, if◌then◌else◌,
}
use chess_pyspec.Base.Int.{ℤ, pos, negsuc, eq_ℤ, nat_le_ℤ}
use chess_pyspec.Base.Result.{Result, ok, err, runtime_error}
use chess_pyspec.Protocol.Fields.{Fields, fields_v2, fields_v3, fields_v4}
use chess_pyspec.Protocol.Struct.{sizeof}

-- The three layouts; `HeaderV4_LE` is the layout `v4` read in little-endian order.
pub data Layout : Type 0 where
  v2 v3 v4 : Layout

unfoldable pub fields : Layout → Fields
unfolding fields_v2 fields_v3 fields_v4
fields v2 = fields_v2
fields v3 = fields_v3
fields v4 = fields_v4

unfoldable pub size_of : Layout → ℕ
unfolding fields sizeof
size_of h = sizeof (fields h)

-- `HEADER_STRUCT_MAP.get(...)`
unfoldable pub known_layout : ℤ → Option Layout
known_layout version =
    if eq_ℤ version (pos 2)
    then some v2
    else if eq_ℤ version (pos 3)
    then some v3
    else if eq_ℤ version (pos 4)
    then some v4
    else none

-- The loop over `header_options`, and what stands behind it. The third argument is the value of
-- `header_struct`, which the loop assigns on every round.
fallback : List Layout → ℤ → Option Layout → Result Layout
unfolding size_of
fallback [] size none = err runtime_error
fallback [] size (some last) = ok last
fallback (h ∷ hs) size last = if nat_le_ℤ (size_of h) size then ok h else fallback hs size (some h)

unfoldable pub determine_header_struct : ℤ → ℤ → Result Layout
unfolding fallback
determine_header_struct version size = elim (known_layout version) [
  | some h ↦ ok h
  | none ↦ fallback (v4 ∷ v3 ∷ v2 ∷ []) size none
]

abbrev pub IsKnown : ℤ → Type 0
IsKnown version = (version ≡ pos 2) ⊎ (version ≡ pos 3) ⊎ (version ≡ pos 4)

known_none_of_ne : (m : ℕ) → m ≢ 2 → m ≢ 3 → m ≢ 4 → known_layout (pos m) ≡ none
unfolding known_layout
known_none_of_ne m p q r = ground arith

pub known_none : (version : ℤ) → ¬ IsKnown version → known_layout version ≡ none
known_none (pos m) u =
    known_none_of_ne m (λ e. u (inl (ap pos e))) (λ e. u (inr (inl (ap pos e))))
      (λ e. u (inr (inr (ap pos e))))
known_none (negsuc m) u = unfold known_layout in refl

-- The longest layout within a number of bytes, and the shortest layout below that.
widest : ℕ → Layout
widest n = if leb 132 n then v4 else if leb 128 n then v3 else v2

determine-widest :
    (version : ℤ) (n : ℕ)
    → known_layout version ≡ none
    → determine_header_struct version (pos n) ≡ ok (widest n)
unfolding determine_header_struct size_of widest
determine-widest version n e = rw (e, determine_header_struct) (ground arith)

widest_fits : (n : ℕ) → size_of v2 ≤ n → size_of (widest n) ≤ n
unfolding widest size_of
widest_fits n h = ground arith

widest_longest : (n : ℕ) (k : Layout) → size_of k ≤ n → size_of k ≤ size_of (widest n)
unfolding widest size_of
widest_longest n v2 h = ground arith
widest_longest n _ h = ground arith

-- A version that is not known, with a header at least as long as the shortest layout, is read by
-- the longest layout that the header holds.
pub determine_fits :
    (version : ℤ) (n : ℕ)
    → ¬ IsKnown version
    → size_of v2 ≤ n
    → (h : Layout) × (determine_header_struct version (pos n) ≡ ok h)
      × (size_of h ≤ n)
      × ((k : Layout) → size_of k ≤ n → size_of k ≤ size_of h)
determine_fits version n u h =
    (widest n, determine-widest version n (known_none version u), widest_fits n h, widest_longest n)

-- After its first round the loop has bound `header_struct`, so what stands behind it cannot raise.
fallback-bound :
    (hs : List Layout) (size : ℤ) (last : Layout)
    → (h : Layout) × (fallback hs size (some last) ≡ ok h)
unfolding fallback
fallback-bound [] size last = (last, refl)
fallback-bound (k ∷ hs) size last = elim (Bool-cases (nat_le_ℤ (size_of k) size)) [
  | inl fits ↦ (k, rw fits refl)
  | inr small ↦ let (h, e) = fallback-bound hs size k in (h, rw small e)
]

fallback-cons :
    (k : Layout) (hs : List Layout) (size : ℤ) → (h : Layout) × (fallback (k ∷ hs) size none ≡ ok h)
unfolding fallback
fallback-cons k hs size = elim (Bool-cases (nat_le_ℤ (size_of k) size)) [
  | inl fits ↦ (k, rw fits refl)
  | inr small ↦ let (h, e) = fallback-bound hs size k in (h, rw small e)
]

-- The choice never raises, whatever the version and the size: the error for a header that is too
-- small is never reached.
pub determine_total :
    (version size : ℤ) → (h : Layout) × (determine_header_struct version size ≡ ok h)
unfolding determine_header_struct
determine_total version size = elim (Option-cases (known_layout version)) [
  | inl e ↦
      let (h, q) = fallback-cons v4 (v3 ∷ v2 ∷ []) size in (h, rw (e, determine_header_struct) q)
  | inr (h, e) ↦ (h, rw (e, determine_header_struct) refl)
]

-- A version that is not known, with a header announced as shorter than every layout, is read by the
-- shortest layout.
pub determine_too_small :
    (version : ℤ) (n : ℕ)
    → ¬ IsKnown version
    → n < size_of v2
    → determine_header_struct version (pos n) ≡ ok v2
determine_too_small version n u h =
    determine-widest version n (known_none version u)
    ∙ ap ok (unfold widest size_of in ground arith)

pub determine_v4 : (size : ℤ) → determine_header_struct (pos 4) size ≡ ok v4
unfolding determine_header_struct known_layout
determine_v4 size = refl
