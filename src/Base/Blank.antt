-- ===== src/Base/Blank.antt =====
-- `str.isspace` of a character, `str.strip()` and `str.split()`.
use Prim.Native.Nat.{ℕ}
use mathlib.Core.Bool.{Bool, ◌&&◌, ◌||◌}
use mathlib.Core.List.{List, [], ◌∷◌}
use chess_pyspec.Base.Tests.{leb, ◌==◌, if◌then◌else◌}
use chess_pyspec.Base.Lists.{Text, is_empty}

unfoldable pub is_space : ℕ → Bool
is_space c =
    (leb 9 c && leb c 13)
    || (leb 28 c && leb c 32)
    || c == 0x85
    || c == 0xa0
    || c == 0x1680
    || (leb 0x2000 c && leb c 0x200a)
    || c == 0x2028
    || c == 0x2029
    || c == 0x202f
    || c == 0x205f
    || c == 0x3000

unfoldable pub lstrip : Text → Text
unfolding is_space
lstrip [] = []
lstrip (c ∷ cs) = let rest = lstrip cs in if is_space c then rest else c ∷ cs

unfoldable pub rstrip_space : Text → Text
unfolding is_space
rstrip_space [] = []
rstrip_space (c ∷ cs) =
    let rest = rstrip_space cs in if is_empty rest && is_space c then [] else c ∷ rest

-- `t.strip()`
unfoldable pub strip : Text → Text
unfolding lstrip rstrip_space
strip t = rstrip_space (lstrip t)

abbrev pub push_word : Text → List Text → List Text
push_word [] ws = ws
push_word (c ∷ w) ws = (c ∷ w) ∷ ws

-- The word that is being read, and the words behind it.
unfoldable pub words_from : Text → Text × List Text
unfolding is_space
words_from [] = ([], [])
words_from (c ∷ cs) =
    let rest = words_from cs in
    if is_space c then ([], push_word rest.0 rest.1) else (c ∷ rest.0, rest.1)

-- `t.split()`
unfoldable pub words : Text → List Text
unfolding words_from
words t = let r = words_from t in push_word r.0 r.1
