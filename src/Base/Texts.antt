-- ===== src/Base/Texts.antt =====
-- `str.split`, `str.join` and `in` for a separator of one character, on texts and on bytes alike.
use Prim.Native.Nat.{ℕ}
use mathlib.Core.Path.{◌≡◌, refl, ap, ◌∙◌}
use mathlib.Core.Bool.{Bool, false, ◌&&◌, ◌||◌}
use mathlib.Core.List.{List, [], ◌∷◌, ◌++◌, append_assoc}
use native.Mathlib.Omega.{arith}
use chess_pyspec.Base.Tests.{◌==◌, if◌then◌else◌}
use chess_pyspec.Base.Lists.{Text, All, is_empty}

-- `sep in t`
unfoldable pub has_char : ℕ → Text → Bool
has_char sep [] = false
has_char sep (c ∷ cs) = c == sep || has_char sep cs

abbrev pub Lacks : ℕ → Text → Type 0
Lacks sep t = has_char sep t ≡ false

abbrev cons_first : ℕ → List Text → List Text
cons_first c [] = (c ∷ []) ∷ []
cons_first c (p ∷ ps) = (c ∷ p) ∷ ps

-- `t.split(sep)`
unfoldable pub split : ℕ → Text → List Text
split sep [] = [] ∷ []
split sep (c ∷ cs) = let rest = split sep cs in if c == sep then [] ∷ rest else cons_first c rest

-- `sep.join(ts)`
unfoldable pub join : ℕ → List Text → Text
join sep [] = []
join sep (t ∷ []) = t
join sep (t ∷ u ∷ ts) = t ++ (sep ∷ join sep (u ∷ ts))

-- `sep.join(ts)`, for a separator of any length
unfoldable pub join_with : Text → List Text → Text
join_with sep [] = []
join_with sep (t ∷ []) = t
join_with sep (t ∷ u ∷ ts) = t ++ (sep ++ join_with sep (u ∷ ts))

-- `ts[:-1]`
unfoldable pub init {ℓ} : {A : Type ℓ} → List A → List A
init [] = []
init (t ∷ []) = []
init (t ∷ u ∷ ts) = t ∷ init (u ∷ ts)

-- Each text with the separator behind it.
unfoldable pub terminated : ℕ → List Text → Text
terminated sep [] = []
terminated sep (t ∷ ts) = t ++ (sep ∷ terminated sep ts)

pub join-terminated :
    (sep : ℕ) (t : Text) (ts : List Text)
    → join sep (t ∷ ts) ++ (sep ∷ []) ≡ terminated sep (t ∷ ts)
unfolding join terminated
join-terminated sep t [] = refl
join-terminated sep t (u ∷ ts) =
    append_assoc t (sep ∷ join sep (u ∷ ts)) (sep ∷ [])
    ∙ ap (λ x. t ++ (sep ∷ x)) (join-terminated sep u ts)

pub split-Lacks : (sep : ℕ) (t : Text) → Lacks sep t → split sep t ≡ t ∷ []
unfolding split has_char
split-Lacks sep [] h = refl
split-Lacks sep (c ∷ cs) h = ground (arith, split-Lacks sep cs)

pub split-append :
    (sep : ℕ) (t rest : Text) → Lacks sep t → split sep (t ++ (sep ∷ rest)) ≡ t ∷ split sep rest
unfolding split has_char
split-append sep [] rest h = ground arith
split-append sep (c ∷ cs) rest h = ground (arith, split-append sep cs rest)

pub split-terminated :
    (sep : ℕ) (ts : List Text)
    → All (Lacks sep) ts
    → split sep (terminated sep ts) ≡ ts ++ ([] ∷ [])
unfolding terminated
split-terminated sep [] h = unfold split in refl
split-terminated sep (t ∷ ts) h =
    split-append sep t (terminated sep ts) h.0 ∙ ap (◌∷◌ t) (split-terminated sep ts h.1)

pub init-append {ℓ} : {A : Type ℓ} (ts : List A) (t : A) → init (ts ++ (t ∷ [])) ≡ ts
unfolding init
init-append [] t = refl
init-append (u ∷ []) t = refl
init-append (u ∷ v ∷ ts) t = ap (◌∷◌ u) (init-append (v ∷ ts) t)

pub Lacks-cons : (sep c : ℕ) (cs : Text) → Lacks sep (c ∷ cs) → ((c == sep) ≡ false) × Lacks sep cs
unfolding has_char
Lacks-cons sep c cs h = ground arith

-- `t.rstrip(sep)`
unfoldable pub rstrip : ℕ → Text → Text
rstrip sep [] = []
rstrip sep (c ∷ cs) = let rest = rstrip sep cs in if is_empty rest && c == sep then [] else c ∷ rest

pub rstrip-Lacks : (sep : ℕ) (t : Text) → Lacks sep t → rstrip sep t ≡ t
unfolding rstrip has_char
rstrip-Lacks sep [] h = refl
rstrip-Lacks sep (c ∷ cs) h = ground (arith, rstrip-Lacks sep cs)

pub Lacks-append : (sep : ℕ) (t u : Text) → Lacks sep t → Lacks sep u → Lacks sep (t ++ u)
unfolding has_char
Lacks-append sep [] u h k = k
Lacks-append sep (c ∷ cs) u h k = ground (arith, Lacks-append sep cs u)
