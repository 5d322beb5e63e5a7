-- ===== src/File/Block.antt =====
-- `FileBlock` of pyspec/file/spec.py: what it holds, and the methods that take one header line.
pub mod Parse
pub mod Getters
pub mod Columns
pub mod Sound
pub mod Complete
pub mod Cached
use chess_pyspec.Base.{
  ℕ, ◌+◌, Bool, true, false, not, ◌||◌, Option, none, some, List, [], ◌∷◌, ◌++◌, length, ◌==◌,
  if◌then◌else◌, Text, is_empty,
}
use chess_pyspec.Base.Blank.{words}
use chess_pyspec.Base.Int.{ℤ, pos, eq_ℤ}
use chess_pyspec.Base.Result.{Result, ok, err, index_error, value_error, ◌>>=◌, or_raise}
use chess_pyspec.Base.Spacing.{split_wide, split_runs, split_each}

-- What is wrong with a line or a scan: the message, with the key of the line
pub data Problem : Type 0 where
  unknown_line unknown_header_line : ℕ → Problem
  wrong_data_line wrong_number_of_columns no_motor_names different_counts : Problem

-- An item of `_error_messages`: `_id`, with none for "", the two line numbers, and the problem
pub record Message : Type 0 where
  pub id : Option ℤ
  pub line : Option (ℕ × ℕ)
  pub problem : Problem

-- The methods in `funcs`
pub data Handler : Type 0 where
  add_s_line add_epoch_line add_file_line add_date_line add_columns_line add_label_line : Handler
  add_motor_label_line add_motor_mne_line add_counter_label_line add_counter_mne_line : Handler
  add_user_line add_comment_line add_motor_position_line add_time_line add_geo_line : Handler
  add_q_line add_extra_line : Handler

-- A value that a line gives, by the letter of the line
pub record Metadata : Type 0 where
  pub number : Option ℤ
  pub command : Text
  pub count_time : Option (Text × Text)
  pub filename : Text
  pub epoch : ℤ
  pub date : Text
  pub columns : ℤ
  pub labels : Option (List Text)
  pub motor_labels : List Text
  pub motor_mnes : List Text
  pub counter_labels : List Text
  pub counter_mnes : List Text
  pub motor_positions : List Text
  pub comment_lines : List Text
  pub user_lines : List Text
  pub geo_pars : List (List Text)
  pub qvalue : Option Text
  pub extra_lines : List (Text × Text)

-- `self.funcs`
unfoldable pub handler_of : ℕ → Option Handler
handler_of c =
    if c == b'S'
    then some add_s_line
    else if c == b'E'
    then some add_epoch_line
    else if c == b'F'
    then some add_file_line
    else if c == b'D'
    then some add_date_line
    else if c == b'N'
    then some add_columns_line
    else if c == b'L'
    then some add_label_line
    else if c == b'O'
    then some add_motor_label_line
    else if c == b'o'
    then some add_motor_mne_line
    else if c == b'J'
    then some add_counter_label_line
    else if c == b'j'
    then some add_counter_mne_line
    else if c == b'U'
    then some add_user_line
    else if c == b'C'
    then some add_comment_line
    else if c == b'P'
    then some add_motor_position_line
    else if c == b'T'
    then some add_time_line
    else if c == b'G'
    then some add_geo_line
    else if c == b'Q'
    then some add_q_line
    else if c == b'@'
    then some add_extra_line
    else none

-- `re.sub(r"[\)\(]", "", t)`
abbrev without_parens : Text → Text
without_parens [] = []
without_parens (c ∷ cs) =
    let rest = without_parens cs in if c == b'(' || c == b')' then rest else c ∷ rest

-- `" ".join(ts)`
unfoldable pub spaced_out : List Text → Text
spaced_out [] = []
spaced_out (t ∷ []) = t
spaced_out (t ∷ u ∷ ts) = t ++ (b' ' ∷ spaced_out (u ∷ ts))

abbrev counted : Text → List Text → Text × Text
counted content (p ∷ u ∷ ps) = (p, without_parens u)
counted content _ = (content, [])

-- `addLabelLine`, by the labels there are
abbrev pub labelled : Option (List Text) → Text → Metadata → Metadata
labelled (some ls) content m = m
labelled none content m =
    let ls = split_wide content in
    record m {
      labels = some ls;
      columns = if eq_ℤ m.columns (pos 0) then pos (length ls) else m.columns;
    }

module _ (int : Text → Option ℤ) where
  abbrev pub numbered : List Text → Metadata → Result Metadata
  numbered [] m = err index_error
  numbered (w ∷ ws) m = or_raise (int w) value_error >>= λ n.
      ok (record m { number = some n; command = spaced_out ws })

  -- `self.funcs[metakey](content, metaval)`
  unfoldable pub call : Handler → Text → Text → Metadata → Result Metadata
  unfolding words split_wide split_runs split_each spaced_out
  call add_s_line content val m = numbered (words content) m
  call add_epoch_line content val m =
      or_raise (int content) value_error >>= λ n. ok (record m { epoch = n })
  call add_file_line content val m = ok (record m { filename = content })
  call add_date_line content val m = ok (record m { date = content })
  call add_columns_line content val m =
      if eq_ℤ m.columns (pos 0)
      then (or_raise (int content) value_error >>= λ n. ok (record m { columns = n }))
      else ok m
  call add_label_line content val m = ok (labelled m.labels content m)
  call add_motor_label_line content val m =
      ok (record m { motor_labels = m.motor_labels ++ split_wide content })
  call add_motor_mne_line content val m =
      ok (record m { motor_mnes = m.motor_mnes ++ split_runs content })
  call add_counter_label_line content val m =
      ok (record m { counter_labels = m.counter_labels ++ split_wide content })
  call add_counter_mne_line content val m =
      ok (record m { counter_mnes = m.counter_mnes ++ split_each content })
  call add_user_line content val m = ok (record m { user_lines = m.user_lines ++ (content ∷ []) })
  call add_comment_line content val m =
      ok (record m { comment_lines = m.comment_lines ++ (content ∷ []) })
  call add_motor_position_line content val m =
      ok (record m { motor_positions = m.motor_positions ++ split_runs content })
  call add_time_line content val m =
      ok (record m { count_time = some (counted content (words content)) })
  call add_geo_line content val m = ok (record m { geo_pars = m.geo_pars ++ (words content ∷ []) })
  call add_q_line content val m = ok (record m { qvalue = some content })
  call add_extra_line content val m =
      ok (record m { extra_lines = m.extra_lines ++ ((val, content) ∷ []) })

-- A block: its lines, where they start in the file, what they give, and the data of the scan
pub record Block (V : Type 0) : Type 0 where
  pub first_line : ℕ
  pub lines : List Text
  pub is_parsed : Bool
  pub meta : Metadata
  pub rows : List (List V)
  pub oneds : List (List (List V))
  pub wrong_lines : List (Problem × Text)
  pub error_messages : List Message
  pub contains_error : Bool
  pub find_oned : Bool
  pub reading_mca : Bool
  pub motor_positions_list : Option (List (Text × Text))

-- `resetParsedData`; it keeps the number and the command.
unfoldable pub reset_metadata : Metadata → Metadata
reset_metadata m = record {
  number = m.number;
  command = m.command;
  count_time = none;
  filename = [];
  epoch = pos 0;
  date = [];
  columns = pos 0;
  labels = none;
  motor_labels = [];
  motor_mnes = [];
  counter_labels = [];
  counter_mnes = [];
  motor_positions = [];
  comment_lines = [];
  user_lines = [];
  geo_pars = [];
  qvalue = none;
  extra_lines = [];
}

-- What `Scan(start, firstline)` and `addSLine` give before the first `parse`, with these lines
unfoldable pub started : (V : Type 0) → ℕ → Option ℤ → Text → List Text → Block V
unfolding reset_metadata
started V first number command lines = record {
  first_line = first;
  lines = lines;
  is_parsed = false;
  meta = reset_metadata (record {
    number = number;
    command = command;
    count_time = none;
    filename = [];
    epoch = pos 0;
    date = [];
    columns = pos 0;
    labels = none;
    motor_labels = [];
    motor_mnes = [];
    counter_labels = [];
    counter_mnes = [];
    motor_positions = [];
    comment_lines = [];
    user_lines = [];
    geo_pars = [];
    qvalue = none;
    extra_lines = [];
  });
  rows = [];
  oneds = [];
  wrong_lines = [];
  error_messages = [];
  contains_error = false;
  find_oned = true;
  reading_mca = false;
  motor_positions_list = none;
}

module _ {V : Type 0} where
  unfoldable pub reset : Block V → Block V
  unfolding reset_metadata
  reset b = record {
    first_line = b.first_line;
    lines = b.lines;
    is_parsed = false;
    meta = reset_metadata b.meta;
    rows = [];
    oneds = [];
    wrong_lines = [];
    error_messages = [];
    contains_error = false;
    find_oned = true;
    reading_mca = false;
    motor_positions_list = b.motor_positions_list;
  }

  abbrev pub reported : Option (ℕ × ℕ) → Problem → Block V → Block V
  reported l p b = record b {
    error_messages =
        b.error_messages ++ (record { id = b.meta.number; line = l; problem = p } ∷ []);
    contains_error = true;
  }

  -- `wrongLine`
  unfoldable pub wrong_line : ℕ → Text → Problem → Block V → Block V
  wrong_line n t p b =
      reported (some (n + 1, b.first_line + n + 1)) p
        (record b { wrong_lines = b.wrong_lines ++ ((p, t) ∷ []) })
