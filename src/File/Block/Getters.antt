-- ===== src/File/Block/Getters.antt =====
-- The getters of `Scan` and of `Header` in pyspec/file/spec.py.
use chess_pyspec.Base.{
  ℕ, zero, suc, ◌+◌, Option, none, some, List, [], ◌∷◌, ◌++◌, map, length, ◌==◌, if◌then◌else◌,
  Text, codes,
}
use chess_pyspec.Base.Blank.{is_space, lstrip}
use chess_pyspec.Base.Int.{ℤ}
use chess_pyspec.Base.Result.{Result, ok, err, index_error, ◌>>=◌}
use chess_pyspec.File.Block.{Block, Metadata, spaced_out}
use chess_pyspec.File.Block.Parse.{parse_header, parse_scan, own_or_header}

-- A `Scan`: its block, and the header that `_fileheader` names
pub record ScanBlock (V : Type 0) : Type 0 where
  pub block : Block V
  pub fileheader : Option (Block V)

-- `\s+`, all of it
abbrev skip_spaces : Text → Option Text
skip_spaces [] = none
skip_spaces (c ∷ cs) = if is_space c then some (lstrip cs) else none

abbrev skip_word : Text → Text → Option Text
skip_word [] t = some t
skip_word (d ∷ ds) [] = none
skip_word (d ∷ ds) (c ∷ cs) = if c == d then skip_word ds cs else none

infixl 20 ◌then_skip◌
abbrev ◌then_skip◌ : Option Text → (Text → Option Text) → Option Text
none then_skip f = none
some t then_skip f = f t

-- What stands behind `\s+User\s+=\s+`, where the text begins with that
unfoldable pub user_after : Text → Option Text
unfolding is_space lstrip
user_after t =
    skip_spaces t
    then_skip skip_word (codes "User")
    then_skip skip_spaces
    then_skip skip_word (codes "=")
    then_skip skip_spaces

-- `respecuser.search(t)`: the user and the program
unfoldable pub search_user : Text → Option (Text × Text)
unfolding user_after
search_user [] = none
search_user (c ∷ cs) = elim (user_after (c ∷ cs)) [
  | some u ↦ some (u, [])
  | none ↦ elim (search_user cs) [ none ↦ none | some r ↦ some (r.0, c ∷ r.1) ]
]

-- `getUserSpec`, on the comment lines
unfoldable pub get_user_spec : List Text → Option (Text × Text)
unfolding search_user
get_user_spec [] = none
get_user_spec (t ∷ ts) = elim (search_user t) [ some r ↦ some r | none ↦ get_user_spec ts ]

abbrev of_header : {V : Type 0} {A : Type 0} → (Block V → A) → Option (Block V) → Option A
of_header f none = none
of_header f (some h) = some (f h)

abbrev pub motor_labels_of : {V : Type 0} → Option (Block V) → Option (List Text)
motor_labels_of h = of_header (λ b. b.meta.motor_labels) h

abbrev pair_of : {A B : Type 0} → Option (A × B) → Option A × Option B
pair_of none = (none, none)
pair_of (some p) = (some p.0, some p.1)

abbrev flatten : {A : Type 0} → List (List A) → List A
flatten [] = []
flatten (x ∷ xs) = x ++ flatten xs

abbrev item : {A : Type 0} → List A → ℕ → Result A
item [] n = err index_error
item (x ∷ xs) zero = ok x
item (x ∷ xs) (suc n) = item xs n

abbrev text_or_empty : Option Text → Text
text_or_empty none = []
text_or_empty (some t) = t

abbrev lengths : {A : Type 0} → List (List A) → ℕ
lengths [] = 0
lengths (x ∷ xs) = length x + lengths xs

module _ {V : Type 0} (int : Text → Option ℤ) (float : Text → Option V) where
  -- `if not self.is_parsed: self.parse()`, of a scan
  unfoldable pub parsed : ScanBlock V → Result (ScanBlock V)
  unfolding parse_scan
  parsed s =
      if s.block.is_parsed
      then ok s
      else (parse_scan int float (motor_labels_of s.fileheader) s.block >>= λ b.
          ok (record s { block = b }))

  -- The same of a header
  unfoldable pub parsed_header : Block V → Result (Block V)
  unfolding parse_header
  parsed_header h = if h.is_parsed then ok h else parse_header int float h

  -- A getter that parses and then reads something of the scan
  unfoldable pub get : {A : Type 0} → (ScanBlock V → A) → ScanBlock V → Result (ScanBlock V × A)
  unfolding parsed
  get f s = parsed s >>= λ p. ok (p, f p)

  -- A list of the scan, or else the same list of its header, if it is not empty
  abbrev either_list : (Metadata → List Text) → ScanBlock V → Option (List Text)
  either_list f s = own_or_header (f s.block.meta) (of_header (λ b. f b.meta) s.fileheader)

  unfoldable pub get_lines : ScanBlock V → ℕ
  get_lines s = length s.block.rows

  unfoldable pub get_columns : ScanBlock V → Result (ScanBlock V × ℤ)
  unfolding get
  get_columns = get λ s. s.block.meta.columns

  unfoldable pub get_labels : ScanBlock V → Result (ScanBlock V × Option (List Text))
  unfolding get
  get_labels = get λ s. s.block.meta.labels

  unfoldable pub get_motor_names : ScanBlock V → Result (ScanBlock V × Option (List Text))
  unfolding get own_or_header
  get_motor_names = get (either_list (λ m. m.motor_labels))

  unfoldable pub get_motor_mnemonics : ScanBlock V → Result (ScanBlock V × Option (List Text))
  unfolding get own_or_header
  get_motor_mnemonics = get (either_list (λ m. m.motor_mnes))

  unfoldable pub get_counter_names : ScanBlock V → Result (ScanBlock V × Option (List Text))
  unfolding get own_or_header
  get_counter_names = get (either_list (λ m. m.counter_labels))

  unfoldable pub get_counter_mnemonics : ScanBlock V → Result (ScanBlock V × Option (List Text))
  unfolding get own_or_header
  get_counter_mnemonics = get (either_list (λ m. m.counter_mnes))

  unfoldable pub get_motor_positions :
      ScanBlock V → Result (ScanBlock V × Option (List (Text × Text)))
  unfolding get
  get_motor_positions = get λ s. s.block.motor_positions_list

  unfoldable pub get_date : ScanBlock V → Result (ScanBlock V × Text)
  unfolding get
  get_date = get λ s. s.block.meta.date

  unfoldable pub get_geometry : ScanBlock V → Result (ScanBlock V × List Text)
  unfolding get spaced_out
  get_geometry = get λ s. map spaced_out s.block.meta.geo_pars

  unfoldable pub get_hkl : ScanBlock V → Result (ScanBlock V × Option Text)
  unfolding get
  get_hkl = get λ s. s.block.meta.qvalue

  unfoldable pub get_count_time : ScanBlock V → Result (ScanBlock V × Option (Text × Text))
  unfolding get
  get_count_time = get λ s. s.block.meta.count_time

  unfoldable pub get_comments : ScanBlock V → Result (ScanBlock V × List Text)
  unfolding get
  get_comments = get λ s. s.block.meta.comment_lines

  unfoldable pub get_user_lines : ScanBlock V → Result (ScanBlock V × List Text)
  unfolding get
  get_user_lines = get λ s. s.block.meta.user_lines

  unfoldable pub get_extra_lines : ScanBlock V → Result (ScanBlock V × List Text)
  unfolding get spaced_out
  get_extra_lines = get λ s. map (λ l. spaced_out (l.0 ∷ l.1 ∷ [])) s.block.meta.extra_lines

  unfoldable pub get_number_mcas : ScanBlock V → Result (ScanBlock V × ℕ)
  unfolding get
  get_number_mcas = get λ s. lengths s.block.oneds

  unfoldable pub get_mcas : ScanBlock V → Result (ScanBlock V × List (List V))
  unfolding get
  get_mcas = get λ s. flatten s.block.oneds

  unfoldable pub get_number_one_d : ScanBlock V → Result (ScanBlock V × ℕ)
  unfolding get
  get_number_one_d = get λ s. length s.block.oneds

  -- `getOneD`, at an index that is not negative
  unfoldable pub get_one_d : ℕ → ScanBlock V → Result (ScanBlock V × List (List V))
  unfolding get
  get_one_d n s = get (λ p. p) s >>= λ r. item r.0.block.oneds n >>= λ o. ok (r.0, o)

  -- What `getUserSpec` of the header gives, once it is parsed
  abbrev from_header : Option (Block V) → ScanBlock V → Result (ScanBlock V × Option (Text × Text))
  from_header none s = ok (s, none)
  from_header (some h) s = parsed_header h >>= λ p.
      ok (record s { fileheader = some p }, get_user_spec p.meta.comment_lines)

  -- `getUser`
  unfoldable pub get_user : ScanBlock V → Result (ScanBlock V × Option Text)
  unfolding get_user_spec parsed_header
  get_user s = from_header s.fileheader s >>= λ r. ok (r.0, (pair_of r.1).0)

  -- `getSpec`
  unfoldable pub get_spec : ScanBlock V → Result (ScanBlock V × Option Text)
  unfolding get_user_spec parsed_header
  get_spec s = from_header s.fileheader s >>= λ r. ok (r.0, (pair_of r.1).1)

  unfoldable pub get_file_date : ScanBlock V → Option Text
  get_file_date s = of_header (λ h. h.meta.date) s.fileheader

  unfoldable pub get_source : ScanBlock V → Text
  get_source s = text_or_empty (of_header (λ h. h.meta.filename) s.fileheader)

  unfoldable pub get_file_epoch : ScanBlock V → Option ℤ
  get_file_epoch s = of_header (λ h. h.meta.epoch) s.fileheader
