-- ===== src/Parsers.antt =====
-- The texts of the configuration: the list arguments of src/vllm_router/utils.py, and what
-- src/vllm_router/parsers/yaml_utils.py makes of the models of a YAML file.
pub mod Accepted
pub mod Arguments
pub mod Paired
use Prim.Native.Char.{code}
use production_stack.Base.Text.{str_append, join}
use production_stack.Base.Names.{ℕ, String, Bool, Option, none, some, List, [], ◌∷◌, ◌++◌}
use production_stack.Base.Tests.{nat_beq, if◌then◌else◌}
use production_stack.Base.Eq.{string_eq}
use production_stack.Base.Lists.{filter, length}
use production_stack.Base.Dict
use production_stack.Base.Dict.{Dict}
use production_stack.Base.Outcome.{Outcome, return, raise, ◌>>=◌, value_error}

abbrev prepend : String → List String → List String
prepend first [] = first ∷ []
prepend first (t ∷ ts) = str_append first t ∷ ts

-- t.split(sep), for a separator of one character
unfoldable pub split : ℕ → String → List String
split sep String.[] = "" ∷ []
split sep (String.◌∷◌ c t) =
    let rest = split sep t in
    if nat_beq (code c) sep then "" ∷ rest else prepend (String.◌∷◌ c String.[]) rest

unfoldable pub parse_comma_separated_args : Option String → Option (List String)
unfolding split
parse_comma_separated_args none = none
parse_comma_separated_args (some t) = some (split b',' t)

-- `validate_url` tests an URL by a regular expression, which is an argument.
unfoldable pub parse_static_urls : (String → Bool) → String → List String
unfolding split
parse_static_urls validate_url static_backends = filter validate_url (split b',' static_backends)

abbrev add_alias : Dict String String → List String → Outcome (Dict String String)
add_alias aliases (alias ∷ model ∷ []) = return (Dict.put aliases alias model)
add_alias aliases _ = raise value_error

abbrev add_aliases : Dict String String → List String → Outcome (Dict String String)
unfolding split
add_aliases aliases [] = return aliases
add_aliases aliases (t ∷ ts) = add_alias aliases (split b':' t) >>= λ more. add_aliases more ts

unfoldable pub parse_static_aliases : String → Outcome (Dict String String)
unfolding split add_aliases
parse_static_aliases static_aliases = add_aliases [] (split b',' static_aliases)

-- The entry of a model in a YAML file, as far as it is read here.
pub record Details : Type 0 where
  pub static_backends : Option (List String)
  pub static_model_type : Option String

abbrev pub or_none : Option (List String) → List String
or_none none = []
or_none (some backends) = backends

abbrev pub repeated : String → ℕ → List String
repeated t ℕ.zero = []
repeated t (ℕ.suc n) = t ∷ repeated t n

-- The lists whose elements are joined by commas.
unfoldable pub backends_of : Dict String Details → List String
backends_of [] = []
backends_of ((name, details) ∷ rest) = or_none details.static_backends ++ backends_of rest

unfoldable pub names_of : Dict String Details → List String
names_of [] = []
names_of ((name, details) ∷ rest) =
    repeated name (length (or_none details.static_backends)) ++ names_of rest

abbrev pub types_for : Option String → Option (List String) → List String
types_for none backends = []
types_for (some type) backends = repeated type (length (or_none backends))

unfoldable pub types_of : Dict String Details → List String
types_of [] = []
types_of ((name, details) ∷ rest) =
    types_for details.static_model_type details.static_backends ++ types_of rest

unfoldable pub generate_static_backends : Dict String Details → String
unfolding backends_of
generate_static_backends models = join "," (backends_of models)

unfoldable pub generate_static_models : Dict String Details → String
unfolding names_of
generate_static_models models = join "," (names_of models)

unfoldable pub generate_static_model_types : Dict String Details → String
unfolding types_of
generate_static_model_types models = join "," (types_of models)

abbrev alias_texts : Dict String String → List String
alias_texts [] = []
alias_texts ((alias, model) ∷ rest) = str_append alias (str_append ":" model) ∷ alias_texts rest

unfoldable pub generate_static_aliases : Dict String String → String
generate_static_aliases aliases = join "," (alias_texts aliases)
