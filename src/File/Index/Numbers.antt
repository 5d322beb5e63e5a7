-- ===== src/File/Index/Numbers.antt =====
-- The numbers and orders of the scans of a file find the scans again.
use chess_pyspec.Base.{
  ℕ, zero, suc, ◌≡◌, refl, sym, ap, ◌∙◌, true, false, Option, some, List, [], ◌∷◌, ◌++◌, length,
  if◌then◌else◌, inl, inr, Bool-cases, All, Text, is_empty,
}
use chess_pyspec.Base.Blank.{strip}
use chess_pyspec.Base.Int.{ℤ, pos, eq_ℤ, eq_ℤ-refl, eq_ℤ-eq, eq_ℤ-sym}
use chess_pyspec.Base.Result.{ok, ◌>>=◌}
use chess_pyspec.File.Index.{
  Scan, Table, scans_of, append_scan, placed, number_scans, get_elem?, get_scan_by_number, pieces,
  indexed, index_lines, index_line, add_line, add_to, no_blocks,
}

get_elem?-last : (ss : List Scan) (s : Scan) → get_elem? (ss ++ (s ∷ [])) (length ss) ≡ some s
unfolding get_elem?
get_elem?-last [] s = refl
get_elem?-last (t ∷ ss) s = get_elem?-last ss s

get_elem?-append :
    (ss : List Scan) (s t : Scan) (n : ℕ)
    → get_elem? ss n ≡ some t
    → get_elem? (ss ++ (s ∷ [])) n ≡ some t
unfolding get_elem?
get_elem?-append [] s t n h = cc
get_elem?-append (u ∷ ss) s t zero h = h
get_elem?-append (u ∷ ss) s t (suc n) h = get_elem?-append ss s t n h

apart : (x y z : ℤ) → eq_ℤ x y ≡ false → eq_ℤ x z ≡ true → eq_ℤ y z ≡ false
apart x y z h k = ap (eq_ℤ y) (sym (eq_ℤ-eq x z k)) ∙ eq_ℤ-sym y x ∙ h

scans_of-append_scan :
    (t : Table) (s : Scan) (n : ℤ)
    → scans_of (append_scan t s) n
      ≡ (if eq_ℤ s.number n then scans_of t n ++ (s ∷ []) else scans_of t n)
unfolding scans_of append_scan
scans_of-append_scan [] s n = refl
scans_of-append_scan ((m, ss) ∷ t) s n = elim (Bool-cases (eq_ℤ m s.number)) [
  | inl h ↦
      let same : eq_ℤ m n ≡ eq_ℤ s.number n = ap (λ x. eq_ℤ x n) (eq_ℤ-eq m s.number h) in
      elim (Bool-cases (eq_ℤ s.number n)) [
        | inl k ↦ rw (h, k, same ∙ k, append_scan, scans_of) refl
        | inr k ↦ rw (h, k, same ∙ k, append_scan, scans_of) refl
      ]
  | inr h ↦ elim (Bool-cases (eq_ℤ m n)) [
    | inl k ↦
        let other : eq_ℤ s.number n ≡ false = apart m s.number n h k in
        rw (h, k, other, append_scan, scans_of) refl
    | inr k ↦ rw (h, k, append_scan, scans_of) (scans_of-append_scan t s n)
  ]
]

-- Whether the table finds a scan by its number and order
abbrev pub Finds : Table → Scan → Type 0
Finds t s = get_scan_by_number t s.number (pos s.order) ≡ some s

Finds-append_scan : (t : Table) (s u : Scan) → Finds t u → Finds (append_scan t s) u
unfolding get_scan_by_number
Finds-append_scan t s u h = elim (Bool-cases (eq_ℤ s.number u.number)) [
  | inl k ↦
      rw (scans_of-append_scan t s u.number, k)
        (get_elem?-append (scans_of t u.number) s u u.order h)
  | inr k ↦ rw (scans_of-append_scan t s u.number, k) h
]

Finds-placed : (t : Table) (s : Scan) (i : ℕ) → Finds (append_scan t (placed s t i)) (placed s t i)
unfolding get_scan_by_number
Finds-placed t s i =
    rw (scans_of-append_scan t (placed s t i) s.number, eq_ℤ-refl s.number)
      (get_elem?-last (scans_of t s.number) (placed s t i))

Finds-number_scans :
    (ss : List Scan) (t : Table) (i : ℕ) (u : Scan) → Finds t u → Finds (number_scans ss t i).1 u
unfolding number_scans
Finds-number_scans [] t i u h = h
Finds-number_scans (s ∷ ss) t i u h =
    Finds-number_scans ss (append_scan t (placed s t i)) (suc i) u
      (Finds-append_scan t (placed s t i) u h)

-- After the scans of a file are numbered, each of them is the scan that its number and order find, also
-- where several scans have the same number.
pub number_scans-Finds :
    (ss : List Scan) (t : Table) (i : ℕ)
    → All (Finds (number_scans ss t i).1) (number_scans ss t i).0
unfolding number_scans
number_scans-Finds [] t i = tt
number_scans-Finds (s ∷ ss) t i = (
  Finds-number_scans ss (append_scan t (placed s t i)) (suc i) (placed s t i) (Finds-placed t s i),
  number_scans-Finds ss (append_scan t (placed s t i)) (suc i),
)

index_line_hash :
    (int : Text → Option ℤ) (x : Text) → index_line int (b'#' ∷ x) no_blocks ≡ ok no_blocks
unfolding index_line add_line add_to
index_line_hash int x = elim (Bool-cases (is_empty (strip (b'#' ∷ x)))) [
  | inl h ↦ rw (h, index_line) refl
  | inr h ↦ rw (h, index_line) refl
]

-- Where a file begins with a number sign, the index ignores its first piece, up to the next line that
-- begins with one: a scan or header that starts there is lost.
pub indexed-hash :
    (int : Text → Option ℤ) (t x : Text) (xs : List Text)
    → pieces t ≡ x ∷ xs
    → indexed int (b'#' ∷ t) ≡ index_lines int xs no_blocks
unfolding indexed index_lines pieces
indexed-hash int t x xs h =
    rw (h, indexed) (ap (λ r. r >>= index_lines int xs) (index_line_hash int x))
