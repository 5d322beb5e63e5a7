-- ===== src/Tests/FileExamples.antt =====
-- The theorems on SPEC files at concrete inputs.
use chess_pyspec.Base.{◌≡◌, refl, List, [], ◌∷◌, ◌++◌, All, Text, codes}
use chess_pyspec.Base.Int.{ℤ, pos}
use chess_pyspec.File.Index.{Scan, number_scans, pieces, indexed, index_lines, no_blocks}
use chess_pyspec.File.Index.Numbers.{Finds, number_scans-Finds, indexed-hash}
use chess_pyspec.Tests.Instances.{parse}

abbrev scan : ℤ → Text → Scan
scan n c = record {
  number = n;
  command = c ∷ [];
  lines = [];
  headers_before = 1;
  order = 1;
  number_in_file = 0;
}

-- Two scans with the number 1
abbrev scans : List Scan
scans =
    scan (pos 1) (codes "ascan") ∷ scan (pos 2) (codes "mesh") ∷ scan (pos 1) (codes "dscan") ∷ []

number_scans-Finds_example : All (Finds (number_scans scans [] 0).1) (number_scans scans [] 0).0
number_scans-Finds_example = number_scans-Finds scans [] 0

abbrev contents : Text
contents = codes "S 1 ascan" ++ (b'\n' ∷ codes "#S 2 mesh")

contents_lem : pieces contents ≡ codes "S 1 ascan" ∷ codes "S 2 mesh" ∷ []
unfolding pieces
contents_lem = refl

indexed-hash_example :
    indexed parse (b'#' ∷ contents) ≡ index_lines parse (codes "S 2 mesh" ∷ []) no_blocks
indexed-hash_example =
    indexed-hash parse contents (codes "S 1 ascan") (codes "S 2 mesh" ∷ []) contents_lem
