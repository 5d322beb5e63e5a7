-- ===== src/File/Index.antt =====
-- The index of a SPEC file: `_indexscans` and `getScanByNumber` of pyspec/file/spec.py.
pub mod Pieces
pub mod Numbers
use chess_pyspec.Base.{
  ℕ, zero, suc, ◌+◌, ◌≡◌, Bool, true, false, Option, none, some, List, [], ◌∷◌, ◌++◌, map, length,
  ◌==◌, ◌||◌, ◌&&◌, if◌then◌else◌, is_empty, take, drop, Text, codes, reverse,
}
use chess_pyspec.Base.Blank.{strip, words}
use chess_pyspec.Base.Int.{ℤ, pos, negsuc, eq_ℤ}
use chess_pyspec.Base.Result.{
  Result, ok, err, index_error, value_error, runtime_error, ◌>>=◌, or_raise,
}

-- A `Header`: its lines. What its `end` parses them to is left out; for where blocks begin see Update.
pub record Header : Type 0 where
  pub lines : List Text

-- A `Scan`: what its first line says, its lines, how many headers there were, and what the index
-- gives it.
pub record Scan : Type 0 where
  pub number : ℤ
  pub command : List Text
  pub lines : List Text
  pub headers_before : ℕ
  pub order : ℕ
  pub number_in_file : ℕ

-- The block that takes the lines: the last header or the last scan
pub data Current : Type 0 where
  nowhere in_header in_scan : Current

-- The headers and scans so far, each with the last one first
pub record Blocks : Type 0 where
  pub headers : List Header
  pub scans : List Scan
  pub current : Current

-- `sline[0]` and `sline[1]`
abbrev pub char_at : ℕ → Text → Result ℕ
char_at zero (c ∷ cs) = ok c
char_at zero [] = err index_error
char_at (suc n) (c ∷ cs) = char_at n cs
char_at (suc n) [] = err index_error

abbrev header_with : Text → List Header → List Header
header_with t [] = []
header_with t (h ∷ hs) = record { lines = h.lines ++ (t ∷ []) } ∷ hs

abbrev scan_with : Text → List Scan → List Scan
scan_with t [] = []
scan_with t (s ∷ ss) = record s { lines = s.lines ++ (t ∷ []) } ∷ ss

-- `fb.addLine(sline)`, where there is a block
unfoldable pub add_to : Current → Text → Blocks → Blocks
add_to nowhere t b = b
add_to in_header t b = record b { headers = header_with t b.headers }
add_to in_scan t b = record b { scans = scan_with t b.scans }

unfoldable pub add_line : Text → Blocks → Blocks
unfolding add_to
add_line t b = add_to b.current t b

unfoldable pub new_header : Blocks → Blocks
new_header b = record {
  headers = record { lines = [] } ∷ b.headers;
  scans = b.scans;
  current = in_header;
}

-- `int(vals[0])` is a parameter.
module _ (int : Text → Option ℤ) where
  -- `addSLine`
  abbrev pub first_line : List Text → Result (ℤ × List Text)
  first_line [] = err index_error
  first_line (w ∷ ws) = or_raise (int w) value_error >>= λ n. ok (n, ws)

  unfoldable pub new_scan : Text → Blocks → Result Blocks
  new_scan t b = do
    (n, ws) ← first_line (words (drop 2 t))
    ok (record {
      headers = b.headers;
      scans =
          record {
            number = n;
            command = ws;
            lines = [];
            headers_before = length b.headers;
            order = 1;
            number_in_file = 0;
          }
          ∷ b.scans;
      current = in_scan;
    })

  -- One round of the loop over the pieces of the file between "\n#"s
  unfoldable pub index_line : Text → Blocks → Result Blocks
  unfolding add_line new_header new_scan
  index_line t b =
      if is_empty (strip t)
      then ok b
      else (char_at 0 t >>= λ c.
          if c == b'S'
          then (new_scan t b >>= λ d. ok (add_line t d))
          else if c == b'F' || c == b'E'
          then (char_at 1 t >>= λ d. ok (if d == b' ' then add_line t (new_header b) else b))
          else ok (add_line t b))

  unfoldable pub index_lines : List Text → Blocks → Result Blocks
  unfolding index_line
  index_lines [] b = ok b
  index_lines (t ∷ ts) b = index_line t b >>= index_lines ts

-- `self.scans`: the scans by their number
abbrev pub Table : Type 0
Table = List (ℤ × List Scan)

unfoldable pub scans_of : Table → ℤ → List Scan
scans_of [] n = []
scans_of ((m, ss) ∷ t) n = if eq_ℤ m n then ss else scans_of t n

-- `self.scans[scanno].append(scan)`, after an empty list was put there for a new number
unfoldable pub append_scan : Table → Scan → Table
append_scan [] s = (s.number, s ∷ []) ∷ []
append_scan ((m, ss) ∷ t) s =
    let rest = append_scan t s in
    if eq_ℤ m s.number then (m, ss ++ (s ∷ [])) ∷ t else (m, ss) ∷ rest

-- The scan with `_setOrder` and `_setNumberInFile`
abbrev pub placed : Scan → Table → ℕ → Scan
placed s t i = record s { order = length (scans_of t s.number); number_in_file = i }

-- The loop that numbers the scans, from the table and the count so far
unfoldable pub number_scans : List Scan → Table → ℕ → List Scan × Table
unfolding append_scan scans_of
number_scans [] t i = ([], t)
number_scans (s ∷ ss) t i =
    let rest = number_scans ss (append_scan t (placed s t i)) (suc i) in
    (placed s t i ∷ rest.0, rest.1)

unfoldable pub get_elem? : List Scan → ℕ → Option Scan
get_elem? [] n = none
get_elem? (s ∷ ss) zero = some s
get_elem? (s ∷ ss) (suc n) = get_elem? ss n

-- `getScanByNumber`; a missing number and an order out of range give None.
unfoldable pub get_scan_by_number : Table → ℤ → ℤ → Option Scan
unfolding scans_of get_elem?
get_scan_by_number t n (pos o) = get_elem? (scans_of t n) o
get_scan_by_number t n (negsuc o) = none

abbrev pub begins_with : ℕ → Text → Bool
begins_with c [] = false
begins_with c (d ∷ ds) = d == c

abbrev pub add_char : ℕ → List Text → List Text
add_char c [] = (c ∷ []) ∷ []
add_char c (t ∷ ts) = (c ∷ t) ∷ ts

abbrev pub without_first : List Text → List Text
without_first [] = []
without_first (t ∷ ts) = drop 1 t ∷ ts

-- `data.split("\n#")`
unfoldable pub pieces : Text → List Text
pieces [] = [] ∷ []
pieces (c ∷ cs) =
    let rest = pieces cs in
    if c == b'\n' && begins_with b'#' cs then [] ∷ without_first rest else add_char c rest

abbrev pub no_blocks : Blocks
no_blocks = record { headers = []; scans = []; current = nowhere }

unfoldable pub indexed : (Text → Option ℤ) → Text → Result Blocks
unfolding index_lines pieces
indexed int contents = index_lines int (pieces contents) no_blocks

abbrev pub in_order : List Scan → List Scan → List Scan
in_order [] ss = ss
in_order (t ∷ ts) ss = in_order ts (t ∷ ss)

-- `FileSpec(filename)` on a file with these contents; with no scans it raises
-- `FileSpecFormatUnknown`.
unfoldable pub open_file : (Text → Option ℤ) → Text → Result (List Scan × Table)
unfolding indexed number_scans
open_file int contents = indexed int contents >>= λ b.
    if is_empty b.scans then err runtime_error else ok (number_scans (in_order b.scans []) [] 0)
