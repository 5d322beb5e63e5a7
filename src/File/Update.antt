-- ===== src/File/Update.antt =====
-- `FileSpec` of pyspec/file/spec.py as an object: `_indexscans` from where it stopped, and `update`.
pub mod Skipped
pub mod Grown
use chess_pyspec.Base.{
  ℕ, suc, Bool, true, false, not, ◌&&◌, ◌||◌, Option, List, [], ◌∷◌, ◌++◌, length, drop, ltb, ◌==◌,
  if◌then◌else◌, Text, is_empty,
}
use chess_pyspec.Base.Blank.{strip}
use chess_pyspec.Base.Int.{ℤ}
use chess_pyspec.Base.Result.{Result, ok, err, runtime_error, ◌>>=◌}
use chess_pyspec.File.Index.{
  Blocks, Scan, Table, in_scan, no_blocks, index_lines, pieces, number_scans, in_order, begins_with,
}

-- `start` and `firstline` of a block
pub record Origin : Type 0 where
  pub start : ℕ
  pub firstline : ℕ

-- The headers and scans, where each of these blocks begins, in their order in the file, the scans
-- with their places, and the table of them; `lastpos`, and the size that `update` saw
pub record FileSpec : Type 0 where
  pub blocks : Blocks
  pub origins : List Origin
  pub numbered : List Scan
  pub scans : Table
  pub lastpos : ℕ
  pub st_size : ℕ

-- A piece that the loop does not leave with `continue`
unfoldable pub is_read : Text → Bool
unfolding strip
is_read [] = false
is_read (c ∷ cs) =
    not (is_empty (strip (c ∷ cs))) && not ((c == b'F' || c == b'E') && not (begins_with b' ' cs))

unfoldable pub any_read : List Text → Bool
unfolding is_read
any_read [] = false
any_read (t ∷ ts) = is_read t || any_read ts

-- A piece that begins a header or a scan
unfoldable pub begins_block : Text → Bool
unfolding is_read
begins_block [] = false
begins_block (c ∷ cs) = is_read (c ∷ cs) && (c == b'S' || c == b'F' || c == b'E')

-- `blockstart` and `blockline` of the blocks that begin in these pieces: `lastpos` is the place where
-- the reading started until a piece was read, and from then on the end of the file.
unfoldable pub origins_from : ℕ → ℕ → ℕ → List Text → List Origin
unfolding begins_block
origins_from lastpos end line [] = []
origins_from lastpos end line (t ∷ ts) =
    let rest = origins_from (if is_read t then end else lastpos) end (suc line) ts in
    if begins_block t then record { start = lastpos; firstline = line } ∷ rest else rest

-- Where the reading starts, and the block it adds to: the last scan, if there is one
abbrev pub resumed : Blocks → Blocks
resumed b = if is_empty b.scans then b else record b { current = in_scan }

abbrev pub unread : FileSpec → Text → Text
unread f contents = if is_empty f.blocks.scans then contents else drop f.lastpos contents

-- `_indexscans`, on a file with these contents. `end` of a header parses it, which fills what its
-- getters return, and raises only for a line that begins with "@A"; that is left out here.
unfoldable pub index_scans : (Text → Option ℤ) → Text → FileSpec → Result FileSpec
unfolding index_lines pieces number_scans any_read origins_from
index_scans int contents f =
    index_lines int (pieces (unread f contents)) (resumed f.blocks) >>= λ b.
    let placed = number_scans (in_order b.scans []) [] 0 in
    ok (record {
      blocks = b;
      origins =
          f.origins ++ origins_from f.lastpos (length contents) 0 (pieces (unread f contents));
      numbered = placed.0;
      scans = placed.1;
      lastpos = if any_read (pieces (unread f contents)) then length contents else f.lastpos;
      st_size = f.st_size;
    })

abbrev pub unopened : FileSpec
unopened = record {
  blocks = no_blocks;
  origins = [];
  numbered = [];
  scans = [];
  lastpos = 0;
  st_size = 0;
}

-- `FileSpec(filename)`
unfoldable pub opened : (Text → Option ℤ) → Text → Result FileSpec
unfolding index_scans
opened int contents =
    index_scans int contents unopened >>= λ f. if is_empty f.scans then err runtime_error else ok f

-- `update`: whether the file has grown, and the object then
unfoldable pub update : (Text → Option ℤ) → Text → FileSpec → Result (Bool × FileSpec)
unfolding index_scans
update int contents f =
    if ltb f.st_size (length contents)
    then (index_scans int contents (record f { st_size = length contents }) >>= λ g. ok (true, g))
    else ok (false, f)
