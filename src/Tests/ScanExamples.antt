-- ===== src/Tests/ScanExamples.antt =====
-- The theorems on blocks, on `save` and on `update` at concrete inputs: numbers are whole, and numpy
-- makes an array of any rows.
use chess_pyspec.Base.{
  ℕ, ◌≡◌, refl, ap, true, false, Option, none, some, List, [], ◌∷◌, ◌++◌, Text, codes, length,
}
use chess_pyspec.Base.Blank.{words}
use chess_pyspec.Base.Int.{ℤ, pos}
use chess_pyspec.Base.Result.{Result, ok, err, index_error, ◌>>=◌, Ensures}
use chess_pyspec.File.Block.Cached.{get-get}
use chess_pyspec.File.Block.Complete.{IsComplete, LacksMca, start_of-IsSound, parse_scan_total}
use chess_pyspec.File.Block.Getters.{ScanBlock, parsed, get}
use chess_pyspec.File.Block.Parse.{read_pieces, start_of, parse_scan}
use chess_pyspec.File.Block.Sound.{IsSound, read_pieces-IsSound}
use chess_pyspec.File.Block.{Block, started, reset, reset_metadata, spaced_out}
use chess_pyspec.File.Index.{pieces, Scan, Table, in_scan, open_file}
use chess_pyspec.File.Save.Opened.{Holds, save-Holds}
use chess_pyspec.File.Save.RoundTrip.{IsSavable}
use chess_pyspec.Base.Texts.{split, has_char}
use chess_pyspec.File.Save.Ink.{all_ink, label_from}
use chess_pyspec.File.Save.Scanned.{IsShown, key_first}
use chess_pyspec.File.Save.{Arrays, MakesArrays, spec, save}
use chess_pyspec.File.Update.Grown.{shown, update-index_scans}
use chess_pyspec.File.Update.{origins_from, FileSpec, opened, update, index_scans, unopened}
use chess_pyspec.Platform.{int}
use chess_pyspec.Tests.Instances.{parse, print, digits}

-- A scan that has not been parsed
abbrev lines : List Text
lines =
    codes "S 5 ascan th 1 2"
    ∷ codes "N 2"
    ∷ (codes "L Two Theta  Counts" ++ (b'\n' ∷ (codes "1 20" ++ (b'\n' ∷ codes "bad"))))
    ∷ []

lines_lem : LacksMca lines
unfolding split
lines_lem = ((refl, tt), ((refl, tt), ((refl, (refl, (refl, tt))), tt)))

abbrev a_scan : Block ℤ
a_scan = record {
  first_line = 0;
  lines = lines;
  is_parsed = false;
  meta = reset_metadata (record {
    number = some (pos 5);
    command = codes "ascan th 1 2";
    count_time = none;
    filename = [];
    epoch = pos 0;
    date = [];
    columns = pos 0;
    labels = none;
    motor_labels = [];
    motor_mnes = [];
    counter_labels = [];
    counter_mnes = [];
    motor_positions = [];
    comment_lines = [];
    user_lines = [];
    geo_pars = [];
    qvalue = none;
    extra_lines = [];
  });
  rows = [];
  oneds = [];
  wrong_lines = [];
  error_messages = [];
  contains_error = false;
  find_oned = true;
  reading_mca = false;
  motor_positions_list = none;
}

parse_scan_total_example :
    (p : Block ℤ) × (parse_scan parse parse none (reset a_scan) ≡ ok p) × IsComplete ℤ none p
parse_scan_total_example = parse_scan_total parse parse none a_scan lines_lem

-- Two points of a scan with two spectra
abbrev spectra : List Text
spectra =
    codes "N 1"
    ∷ (codes "1" ++ (b'\n' ∷ []))
    ∷ (codes "@A 1 2" ++ (b'\n' ∷ (codes "@A 3 \\" ++ (b'\n' ∷ codes " 4"))))
    ∷ []

read_pieces-IsSound_example :
    Ensures (IsSound ℤ) (read_pieces parse parse spectra (start_of (reset a_scan)))
read_pieces-IsSound_example =
    read_pieces-IsSound parse parse spectra (start_of (reset a_scan)) (start_of-IsSound a_scan)

-- A scan that has been parsed
abbrev table_scan : ScanBlock ℤ
table_scan = record {
  block = record a_scan {
    is_parsed = true;
    meta = record a_scan.meta {
      labels = some (codes "Two Theta" ∷ codes "Counts" ∷ []);
      columns = pos 2;
    };
    rows = (pos 1 ∷ pos 20 ∷ []) ∷ (pos 2 ∷ pos 7 ∷ []) ∷ [];
  };
  fileheader = none;
}

abbrev labels_of : ScanBlock ℤ → Option (List Text)
labels_of s = s.block.meta.labels

abbrev columns_of : ScanBlock ℤ → ℤ
columns_of s = s.block.meta.columns

labels_lem : get parse parse labels_of table_scan ≡ ok (table_scan, labels_of table_scan)
unfolding get parsed
labels_lem = refl

get-get_example :
    (labels_of table_scan ≡ labels_of table_scan)
    × (get parse parse columns_of table_scan ≡ ok (table_scan, columns_of table_scan))
get-get_example =
    get-get parse parse labels_of columns_of table_scan table_scan (labels_of table_scan) labels_lem

abbrev show : ℤ → Text
show n = print (int n)

abbrev shape : List (List ℤ) → Result (ℕ × List (List ℤ))
shape [] = err index_error
shape (r ∷ rs) = ok (length r, r ∷ rs)

abbrev numpy : Arrays ℤ
numpy = record { array = shape; empty = λ n. ok (0, []) }

numpy_lem : MakesArrays ℤ numpy
numpy_lem = record { rows_array = λ n r rs h. ap (λ k. ok (k, r ∷ rs)) h.0 }

abbrev command : List Text
command = codes "ascan" ∷ codes "th" ∷ codes "1" ∷ codes "2" ∷ []

abbrev labels : List Text
labels = codes "Two Theta" ∷ codes "Counts" ∷ []

abbrev rows : List (List ℤ)
rows = (pos 1 ∷ pos 20 ∷ []) ∷ (pos 2 ∷ pos 7 ∷ []) ∷ []

table_scan-Holds : Holds ℤ table_scan.block 2 (pos 5) command labels rows
unfolding reset_metadata spaced_out
table_scan-Holds = record {
  number = refl;
  command = refl;
  labels = refl;
  columns = refl;
  rows = refl;
}

IsShown-1 : IsShown ℤ parse show (pos 1)
unfolding parse print all_ink key_first
IsShown-1 = record { read = refl; word = (refl, refl); no_key = refl; no_mark = refl }

IsShown-20 : IsShown ℤ parse show (pos 20)
unfolding parse print all_ink key_first
IsShown-20 = record { read = refl; word = (refl, refl); no_key = refl; no_mark = refl }

IsShown-2 : IsShown ℤ parse show (pos 2)
unfolding parse print all_ink key_first
IsShown-2 = record { read = refl; word = (refl, refl); no_key = refl; no_mark = refl }

IsShown-7 : IsShown ℤ parse show (pos 7)
unfolding parse print all_ink key_first
IsShown-7 = record { read = refl; word = (refl, refl); no_key = refl; no_mark = refl }

table_scan-IsSavable : IsSavable ℤ parse parse show show 2 (pos 5) command labels rows
unfolding parse print digits all_ink label_from has_char key_first
table_scan-IsSavable = record {
  number_read = refl;
  number_word = (refl, refl);
  columns_read = refl;
  columns_word = (refl, refl);
  command_words = ((refl, refl), ((refl, refl), ((refl, refl), ((refl, refl), tt))));
  labels = (refl, (refl, tt));
  labels_line = (refl, (refl, tt));
  rows = (
    ((IsShown-1, (IsShown-20, tt)), refl, refl),
    (((IsShown-2, (IsShown-7, tt)), refl, refl), tt),
  );
}

save-Holds_example :
    (t : Text) × (save show show parse parse numpy spec table_scan ≡ ok (table_scan, t))
    × (saved : Scan) × (table : Table) × (open_file parse t ≡ ok (saved ∷ [], table))
    × (p : Block ℤ) × (parse_scan parse parse none
          (started ℤ 0 (some saved.number) (spaced_out saved.command) saved.lines)
        ≡ ok p)
    × Holds ℤ p 2 (pos 5) command labels rows
save-Holds_example =
    save-Holds parse parse show show numpy none 0 table_scan 1 (pos 5) command (codes "Two Theta")
      (codes "Counts" ∷ []) (pos 1 ∷ pos 20 ∷ []) ((pos 2 ∷ pos 7 ∷ []) ∷ []) numpy_lem refl
      table_scan-Holds table_scan-IsSavable

abbrev first_part : Text
first_part = codes "S 1 ascan"

abbrev first_scan : Scan
first_scan = record {
  number = pos 1;
  command = codes "ascan" ∷ [];
  lines = first_part ∷ [];
  headers_before = 0;
  order = 0;
  number_in_file = 0;
}

abbrev first_file : FileSpec
first_file = record {
  blocks = record { headers = []; scans = record first_scan { order = 1 } ∷ []; current = in_scan };
  origins = record { start = 0; firstline = 0 } ∷ [];
  numbered = first_scan ∷ [];
  scans = (pos 1, first_scan ∷ []) ∷ [];
  lastpos = 9;
  st_size = 0;
}

first_file_lem : opened parse first_part ≡ ok first_file
unfolding opened words parse
first_file_lem = refl

update-index_scans_example :
    ((update parse (first_part ++ (b'\n' ∷ b'#' ∷ codes "S 2 mesh")) first_file >>= λ r.
    ok (shown r.1))
      ≡ (index_scans parse (first_part ++ (b'\n' ∷ b'#' ∷ codes "S 2 mesh")) unopened >>= λ g.
          ok (shown g)))
    × ((update parse (first_part ++ (b'\n' ∷ b'#' ∷ codes "S 2 mesh")) first_file >>= λ r.
          ok r.1.origins)
        ≡ (index_scans parse (first_part ++ (b'\n' ∷ b'#' ∷ codes "S 2 mesh")) unopened >>= λ g.
            ok (
              (record { start = 0; firstline = 0 } ∷ [])
              ++ (record { start = 9; firstline = 1 } ∷ []))))
unfolding origins_from pieces
update-index_scans_example =
    update-index_scans parse first_part (codes "S 2 mesh") first_file first_file_lem refl
