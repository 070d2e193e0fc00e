-- ===== src/Chain.antt =====
-- The chain of handlers: core/handler/handler_chain.go, and the table of handlers of
-- core/handler/handler.go. `S` is what the handlers keep between calls, `I` the invocation and `R`
-- the response. A handler answers by calling the callback, or it calls `Next` once with an
-- invocation and a callback that may change the response; the handler that retries is in Retry.
pub mod Order
pub mod Names
use go_chassis.Prelude.{
  ℕ, zero, suc, ◌+◌, String, ◌<>◌, List, [], ◌∷◌, ◌++◌, Option, none, some, Bool, true, false, not,
  ◌&&◌, ◌==◌, leb, length, get_elem?, keep, Dict, lookup, insert, ◌>>=◌, if◌then◌else◌,
  without_char, trim_space, split_on,
}

pub data Step (S I R : Type 0) : Type 0 where
  answers : R → S → Step S I R
  forwards : I → S → (R → R) → Step S I R

abbrev pub Handler : Type 0 → Type 0 → Type 0 → Type 0
Handler S I R = S → I → Step S I R

-- `Chain`
pub record Chain (S I R : Type 0) : Type 0 where
  pub service_type : String
  pub name : String
  pub handlers : List (Handler S I R)
  pub handler_index : ℕ

abbrev pub Passed : Type 0 → Type 0 → Type 0 → Type 0
Passed S I R = R × (S × Chain S I R)

abbrev pub changed : {A R : Type 0} → (R → R) → R × A → R × A
changed f (r, rest) = (f r, rest)

abbrev pub Table : Type 0 → Type 0 → Type 0 → Type 0
Table S I R = Dict (Handler S I R)

abbrev pub Chains : Type 0 → Type 0 → Type 0 → Type 0
Chains S I R = Dict (Chain S I R)

-- `StringInSlice` of core/util/string
unfoldable pub in_slice : String → List String → Bool
in_slice a [] = false
in_slice a (b ∷ rest) = let more = in_slice a rest in if b == a then true else more

module _ {S I R : Type 0} where
  -- `AddHandler`
  unfoldable pub add_handler : Handler S I R → Chain S I R → Chain S I R
  add_handler h c = record c { handlers = c.handlers ++ h ∷ [] }

  -- `Reset`
  unfoldable pub reset : Chain S I R → Chain S I R
  reset c = record c { handler_index = 0 }

  -- `Next`, where `empty` is the response at the end of the chain: the response that reaches the
  -- callback, the state and the chain. `none` is a bound on the number of handlers that was too
  -- small.
  abbrev pub taken :
      Step S I R → Chain S I R → (I → S → Option (Passed S I R)) → Option (Passed S I R)
  taken (answers r s) c next = some (r, (s, c))
  taken (forwards i s f) c next = next i s >>= λ p. some (changed f p)

  abbrev pub at_index :
      Option (Handler S I R)
      → R
      → Chain S I R
      → (Chain S I R → I → S → Option (Passed S I R))
      → I
      → S
      → Option (Passed S I R)
  at_index none empty c next i s = some (empty, (s, c))
  at_index (some h) empty c next i s =
      let c' = record c { handler_index = suc c.handler_index } in taken (h s i) c' (next c')

  unfoldable pub next : ℕ → R → Chain S I R → I → S → Option (Passed S I R)
  next zero empty c i s = none
  next (suc fuel) empty c i s =
      at_index (get_elem? c.handlers c.handler_index) empty c (λ c' i' s'. next fuel empty c' i' s')
        i s

  -- `HandlerFuncMap`, `RegisterHandler` and `CreateHandler`; the errors are `none`.
  abbrev pub is_registered : Option (Handler S I R) → Bool
  is_registered none = false
  is_registered (some h) = true

  unfoldable pub register_handler :
      List String → String → Handler S I R → Table S I R → Option (Table S I R)
  unfolding in_slice
  register_handler build_in name f table =
      if in_slice name build_in
      then none
      else if is_registered (lookup name table)
      then none
      else some (insert name f table)

  -- `addHandler` and the loop of `CreateChain`
  unfoldable pub add_handlers : Table S I R → List String → Chain S I R → Option (Chain S I R)
  unfolding add_handler
  add_handlers table [] c = some c
  add_handlers table (n ∷ names) c =
      lookup n table >>= λ h. add_handlers table names (add_handler h c)

  -- `CreateChain`
  unfoldable pub create_chain : Table S I R → String → String → List String → Option (Chain S I R)
  unfolding add_handlers
  create_chain table service_type chain_name names =
      add_handlers table names (record {
        service_type = service_type;
        name = chain_name;
        handlers = [];
        handler_index = 0;
      })

-- `parseHandlers`
unfoldable pub parse_handlers : String → List String
parse_handlers text =
    keep (λ v. not (v == "")) (split_on b',' (without_char b' ' (trim_space text)))

module _ {S I R : Type 0} where
  -- `CreateChains`, over the entries in the order of the map: the chains that were put into
  -- `ChainMap`, and whether there was no error.
  abbrev pub created :
      Option (Chain S I R)
      → String
      → Chains S I R
      → (Chains S I R → Chains S I R × Bool)
      → Chains S I R × Bool
  created none key m next = (m, false)
  created (some c) key m next = next (insert key c m)

  unfoldable pub create_chains :
      Dict (Handler S I R) → String → Dict String → Chains S I R → Chains S I R × Bool
  unfolding create_chain parse_handlers
  create_chains table chain_type [] m = (m, true)
  create_chains table chain_type ((chain_name, text) ∷ rest) m =
      created (create_chain table chain_type chain_name (parse_handlers text))
        (chain_type <> chain_name) m (λ m'. create_chains table chain_type rest m')

  -- `GetChain`: a copy of the chain; `none` is the error.
  unfoldable pub get_chain : Chains S I R → String → String → Option (Chain S I R)
  get_chain m service_type chain_name =
      lookup (service_type <> (if chain_name == "" then "default" else chain_name)) m
