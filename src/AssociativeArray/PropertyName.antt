-- ===== src/AssociativeArray/PropertyName.antt =====
-- The element that a property name denotes: `get_associative_array_key` and its regular expression
--   ^[^\[\]]*(?:\[(.*?)\])(?:\[(.*?)\])?$
use chess_pyspec.Base.{
  ℕ, ◌≡◌, refl, ◌∙◌, Bool, true, false, Option, none, some, [], ◌∷◌, ◌++◌, append_assoc, arith,
  ◌==◌, if◌then◌else◌, Text,
}
use chess_pyspec.Base.Texts.{has_char, Lacks, Lacks-cons}

abbrev pub open_bracket : ℕ
open_bracket = b'['

abbrev pub close_bracket : ℕ
close_bracket = b']'

-- `t.endswith("]")`
unfoldable pub ends_with : ℕ → Text → Bool
ends_with e [] = false
ends_with e (c ∷ []) = c == e
ends_with e (c ∷ d ∷ r) = ends_with e (d ∷ r)

-- `^[^\[\]]*\[`: what follows the first bracket, which must open.
skip_name : Text → Option Text
skip_name [] = none
skip_name (c ∷ cs) =
    if c == open_bracket then some cs else if c == close_bracket then none else skip_name cs

abbrev cons_some : ℕ → Option Text → Option Text
cons_some c none = none
cons_some c (some t) = some (c ∷ t)

-- `(.*?)\]$`: a body with no newline up to a bracket at the end.
close_at_end : Text → Option Text
close_at_end [] = none
close_at_end (c ∷ []) = if c == close_bracket then some [] else none
close_at_end (c ∷ d ∷ r) =
    let rest = close_at_end (d ∷ r) in if c == b'\n' then none else cons_some c rest

-- `(?:\[(.*?)\])?$`: the second group, "" where there is none.
second_group : Text → Option Text
unfolding close_at_end
second_group [] = some []
second_group (c ∷ cs) = if c == open_bracket then close_at_end cs else none

abbrev cons_fst : ℕ → Option (Text × Text) → Option (Text × Text)
cons_fst c none = none
cons_fst c (some (a, b)) = some (c ∷ a, b)

-- `(.*?)\]` and what must follow: the shortest first group for which the rest matches.
first_group : Text → Option (Text × Text)
unfolding second_group
first_group [] = none
first_group (c ∷ cs) =
    let longer = if c == b'\n' then none else cons_fst c (first_group cs) in
    if c == close_bracket
    then elim (second_group cs) [ some b ↦ some ([], b) | none ↦ longer ]
    else longer

-- `get_associative_array_key`
unfoldable pub get_key : Text → Option (Text × Text)
unfolding ends_with skip_name first_group
get_key t =
    if ends_with close_bracket t
    then elim (skip_name t) [ none ↦ none | some r ↦ first_group r ]
    else none

abbrev pub bracketed : Text → Text
bracketed k = open_bracket ∷ (k ++ (close_bracket ∷ []))

ends_with-append : (e : ℕ) (t : Text) → ends_with e (t ++ (e ∷ [])) ≡ true
unfolding ends_with
ends_with-append e [] = ground arith
ends_with-append e (c ∷ []) = ground arith
ends_with-append e (c ∷ d ∷ r) = ends_with-append e (d ∷ r)

skip_name-append :
    (n r : Text)
    → Lacks open_bracket n
    → Lacks close_bracket n
    → skip_name (n ++ (open_bracket ∷ r)) ≡ some r
unfolding skip_name has_char
skip_name-append [] r h g = refl
skip_name-append (c ∷ n) r h g = ground (arith, skip_name-append n r)

close_at_end-append : (k : Text) → Lacks b'\n' k → close_at_end (k ++ (close_bracket ∷ [])) ≡ some k
unfolding close_at_end has_char
close_at_end-append [] h = refl
close_at_end-append (c ∷ []) h = ground arith
close_at_end-append (c ∷ d ∷ k) h = ground (arith, close_at_end-append (d ∷ k))

first_group-append :
    (k r : Text) {b : Text}
    → Lacks close_bracket k
    → Lacks b'\n' k
    → second_group r ≡ some b
    → first_group (k ++ (close_bracket ∷ r)) ≡ some (k, b)
unfolding first_group has_char
first_group-append [] r h n e = rw e refl
first_group-append (c ∷ k) r h n e =
    let (ne_close, h') = Lacks-cons close_bracket c k h in
    let (ne_line, n') = Lacks-cons b'\n' c k n in
    rw (ne_close, ne_line, first_group-append k r h' n' e) refl

get_key_of :
    (t : Text) {r : Text}
    → ends_with close_bracket t ≡ true
    → skip_name t ≡ some r
    → get_key t ≡ first_group r
unfolding get_key
get_key_of t h e = rw (h, e) refl

-- A name with no brackets, followed by one key in brackets, denotes that key.
pub get_key_one :
    (n k : Text)
    → Lacks open_bracket n
    → Lacks close_bracket n
    → Lacks close_bracket k
    → Lacks b'\n' k
    → get_key (n ++ bracketed k) ≡ some (k, [])
get_key_one n k ho hc hk hn =
    get_key_of (n ++ bracketed k)
      (rw (← append_assoc n (open_bracket ∷ k) (close_bracket ∷ []))
        (ends_with-append close_bracket (n ++ (open_bracket ∷ k))))
      (skip_name-append n (k ++ (close_bracket ∷ [])) ho hc)
    ∙ first_group-append k [] hk hn (unfold second_group in refl)

-- Followed by two, it denotes the pair.
pub get_key_two :
    (n k j : Text)
    → Lacks open_bracket n
    → Lacks close_bracket n
    → Lacks close_bracket k
    → Lacks b'\n' k
    → Lacks b'\n' j
    → get_key (n ++ (bracketed k ++ bracketed j)) ≡ some (k, j)
get_key_two n k j ho hc hk hn hj =
    get_key_of (n ++ (bracketed k ++ bracketed j))
      (rw
        (
          ← append_assoc (bracketed k) (open_bracket ∷ j) (close_bracket ∷ []),
          ← append_assoc n (bracketed k ++ (open_bracket ∷ j)) (close_bracket ∷ []),
        )
        (ends_with-append close_bracket (n ++ (bracketed k ++ (open_bracket ∷ j)))))
      (skip_name-append n ((k ++ (close_bracket ∷ [])) ++ bracketed j) ho hc)
    ∙ rw (append_assoc k (close_bracket ∷ []) (bracketed j))
        (first_group-append k (bracketed j) hk hn (unfold second_group in close_at_end-append j hj))
