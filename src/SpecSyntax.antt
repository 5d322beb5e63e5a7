-- ===== src/SpecSyntax.antt =====
-- pyspec/_spec_syntax.py: the expressions that a server evaluates for its clients.
pub mod Safety
use chess_pyspec.Base.{
  ℕ, ◌≡◌, Bool, true, false, Option, none, some, List, [], ◌∷◌, ◌++◌, if◌then◌else◌, Text, is_empty,
}
use chess_pyspec.Base.Blank.{strip}
use chess_pyspec.Base.Result.{
  Result, ok, err, value_error, attribute_error, ◌>>=◌, ◌>>◌, require, or_raise,
}
use chess_pyspec.Platform.{Floats, Numpy}
use chess_pyspec.Payload.{Payload, of_element}
use chess_pyspec.AssociativeArray.{AssociativeArray, Key, Element, get_item}

-- The Python objects that an expression can stand for, and what the program does with them.
pub record Objects (fl : Floats) (np : Numpy) : Type 1 where
  pub V : Type 0
  pub of_data : Payload fl.F np.Array → V
  -- The value that `serialize` sends for an object, none where it raises `ValueError`
  pub to_data : V → Option (Payload fl.F np.Array)
  pub to_data-of_data : (d : Payload fl.F np.Array) → to_data (of_data d) ≡ some d
  pub tuple : List V → V
  pub list : List V → V
  -- A set or dict display; an object that cannot be hashed raises.
  pub set : List V → Result V
  pub dict : List (V × V) → Result V
  -- `current[key]`
  pub index : V → V → Result V
  -- `isinstance(value, AssociativeArray)`
  pub as_assoc : V → Option (AssociativeArray fl.F)
  pub as_assoc-of_data : (a : AssociativeArray fl.F) → as_assoc (of_data (Payload.assoc a)) ≡ some a
  -- An object as a key of an associative array, and as an element of a pair of keys
  pub as_key : V → Result (Key fl.F)
  pub as_element : V → Element fl.F

-- The nodes of Python's `ast` module that the program tells apart. `other` is any other node.
mutual
  pub data Expr (V : Type 0) : Type 0 where
    constant : V → Expr V
    tuple : Exprs V → Expr V
    list : Exprs V → Expr V
    set : Exprs V → Expr V
    dict : Entries V → Expr V
    name : Text → Expr V
    subscript : Expr V → Expr V → Expr V
    -- The function, the arguments, and whether there are keywords
    call : Expr V → Exprs V → Bool → Expr V
    other : Expr V

  pub data Exprs (V : Type 0) : Type 0 where
    nil : Exprs V
    cons : Expr V → Exprs V → Exprs V

  -- The keys and values of a dict display; the key of `**value` is None.
  pub data Entries (V : Type 0) : Type 0 where
    end : Entries V
    entry : Expr V → Expr V → Entries V → Entries V
    unpacked : Expr V → Entries V → Entries V

-- The function's name, the arguments and whether there are keywords.
unfoldable pub as_call : {V : Type 0} → Expr V → Result (Text × Exprs V × Bool)
as_call (call (name f) args keywords) = ok (f, args, keywords)
as_call _ = err value_error

module _ {V : Type 0} (parse : Text → Option (Expr V)) where
  -- `parse_spec_expression`; `parse` is `ast.parse(text, mode="eval").body`.
  unfoldable pub parse_spec_expression : Text → Result (Expr V)
  parse_spec_expression t = do
    require (if is_empty (strip t) then false else true) value_error
    or_raise (parse (strip t)) value_error

  unfoldable pub parse_function_name : Text → Result Text
  unfolding parse_spec_expression as_call
  parse_function_name t = do e ← parse_spec_expression t; c ← as_call e; ok c.0

module _ {fl : Floats} {np : Numpy} (py : Objects fl np) where
  open py use {V, index, as_assoc, as_key, as_element}

  -- `current = current[key]` for each key
  unfoldable pub index_all : V → List V → Result V
  index_all v [] = ok v
  index_all v (k ∷ ks) = index v k >>= λ w. index_all w ks

  unfoldable pub assoc_index : AssociativeArray fl.F → List V → Result V
  assoc_index a (k ∷ []) = do key ← as_key k; e ← get_item fl a key; ok (py.of_data (of_element e))
  assoc_index a (j ∷ k ∷ []) = do
    e ← get_item fl a (Key.two (as_element j) (as_element k))
    ok (py.of_data (of_element e))
  assoc_index a _ = err value_error

  -- What `except Exception` makes of a result.
  abbrev pub wrap : Result V → Result V
  wrap (ok v) = ok v
  wrap (err e) = err value_error

  -- The keys of a subscript, applied to its base; with no keys, the base.
  unfoldable pub subscripted : List V × V → Result V
  unfolding index_all assoc_index
  subscripted ([], v) = ok v
  subscripted (k ∷ ks, v) =
      wrap (elim (as_assoc v) [ some a ↦ assoc_index a (k ∷ ks) | none ↦ index_all v (k ∷ ks) ])

  abbrev no_keys : Result V → Result (List V × V)
  no_keys r = r >>= λ v. ok ([], v)

  module _ (resolve : Option (Text → Result V)) where
    abbrev resolved : Text → Result V
    resolved s = elim resolve [ none ↦ err value_error | some f ↦ f s ]

    -- The keys of a chain of subscripts, in order, and its base. The keys are evaluated from the
    -- last to the first, and the base behind them.
    unfoldable mutual
      unfolding subscripted

      pub chain : Expr V → Result (List V × V)
      chain (constant v) = ok ([], v)
      chain (tuple es) = no_keys (evaluate_all es >>= λ vs. ok (py.tuple vs))
      chain (list es) = no_keys (evaluate_all es >>= λ vs. ok (py.list vs))
      chain (set es) = no_keys (evaluate_all es >>= py.set)
      chain (dict es) = no_keys (evaluate_entries es >>= py.dict)
      chain (name s) = no_keys (resolved s)
      chain (subscript e s) = do
        k ← chain s >>= subscripted
        (ks, v) ← chain e
        ok (ks ++ (k ∷ []), v)
      chain (call f args keywords) = err value_error
      chain other = err value_error

      pub evaluate_all : Exprs V → Result (List V)
      evaluate_all nil = ok []
      evaluate_all (cons e es) = do v ← chain e >>= subscripted; vs ← evaluate_all es; ok (v ∷ vs)

      pub evaluate_entries : Entries V → Result (List (V × V))
      evaluate_entries end = ok []
      evaluate_entries (entry k e es) = do
        a ← chain k >>= subscripted
        b ← chain e >>= subscripted
        rest ← evaluate_entries es
        ok ((a, b) ∷ rest)
      evaluate_entries (unpacked e es) = err attribute_error

    -- `_evaluate_expression_node`
    unfoldable pub evaluate : Expr V → Result V
    unfolding chain subscripted
    evaluate e = chain e >>= subscripted

    unfoldable pub evaluate_spec_expression : (Text → Option (Expr V)) → Text → Result V
    unfolding evaluate
    evaluate_spec_expression parse t = do e ← parse_spec_expression parse t; evaluate e

    unfoldable pub parse_function_call : (Text → Option (Expr V)) → Text → Result (Text × List V)
    unfolding evaluate_all
    parse_function_call parse t = do
      e ← parse_spec_expression parse t
      (f, args, keywords) ← as_call e
      require (if keywords then false else true) value_error
      vs ← evaluate_all args
      ok (f, vs)
