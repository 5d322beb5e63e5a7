-- ===== src/Base/Spacing.antt =====
-- `re.split` at white space, `str.find` of a space and slices of a `str`.
use chess_pyspec.Base.Blank.{is_space}
use chess_pyspec.Base.Lists.{Text}
use chess_pyspec.Base.Tests.{◌==◌, if◌then◌else◌}
use mathlib.Core.Bool.{Bool, true, false, not}
use mathlib.Core.List.{List, [], ◌∷◌}
use mathlib.Core.Option.{Option, none, some}
use Prim.Native.Nat.{ℕ, suc}

abbrev pub cons_first : ℕ → List Text → List Text
cons_first c [] = (c ∷ []) ∷ []
cons_first c (p ∷ ps) = (c ∷ p) ∷ ps

-- Where the matching stands: in a field, behind the one space there is so far, or in a gap.
pub data Gap : Type 0 where
  in_field : Gap
  spaced : ℕ → Gap
  in_gap : Gap

abbrev pub next_gap : Gap → Bool → ℕ → Gap
next_gap m false c = in_field
next_gap in_field true c = spaced c
next_gap (spaced s) true c = in_gap
next_gap in_gap true c = in_gap

abbrev pub put : Gap → Bool → ℕ → List Text → List Text
put in_field true c rest = rest
put in_field false c rest = cons_first c rest
put (spaced s) true c rest = [] ∷ rest
put (spaced s) false c rest = cons_first s (cons_first c rest)
put in_gap true c rest = rest
put in_gap false c rest = cons_first c rest

unfoldable pub fields_in : Gap → Text → List Text
unfolding is_space
fields_in (spaced s) [] = (s ∷ []) ∷ []
fields_in _ [] = [] ∷ []
fields_in m (c ∷ cs) = put m (is_space c) c (fields_in (next_gap m (is_space c) c) cs)

-- `re.split(r"\s\s+", t)`
unfoldable pub split_wide : Text → List Text
unfolding fields_in
split_wide = fields_in in_field

-- `re.split(r"\s+", t)`, from whether a gap is being read
unfoldable pub runs_in : Bool → Text → List Text
unfolding is_space
runs_in gap [] = [] ∷ []
runs_in gap (c ∷ cs) =
    let rest = runs_in (is_space c) cs in
    if not (is_space c) then cons_first c rest else if gap then rest else [] ∷ rest

-- `re.split(r"\s+", t)`
unfoldable pub split_runs : Text → List Text
unfolding runs_in
split_runs = runs_in false

-- `re.split(r"\s", t)`
unfoldable pub split_each : Text → List Text
unfolding is_space
split_each [] = [] ∷ []
split_each (c ∷ cs) =
    let rest = split_each cs in if is_space c then [] ∷ rest else cons_first c rest

-- `t.find(sep)`, with none for -1
unfoldable pub find : ℕ → Text → Option ℕ
find sep [] = none
find sep (c ∷ cs) =
    let rest = find sep cs in
    if c == sep then some 0 else elim rest [ none ↦ none | some n ↦ some (suc n) ]

-- `t[-1:]`
unfoldable pub last_char : Text → Text
last_char [] = []
last_char (c ∷ []) = c ∷ []
last_char (c ∷ d ∷ cs) = last_char (d ∷ cs)
