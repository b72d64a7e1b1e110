-- ===== src/Runtime/Environment.antt =====
-- runtime/run_context.cpp: the environment that extensions add, in `RunContext::resolveLayer`.
use linyaps.Prelude.{
  not, Option, none, some, List, [], ◌∷◌, ◌++◌, Text, codes, text_eq, is_empty, lex_lt,
  if◌then◌else◌,
}
use linyaps.Utils.Strings.{replace_substring}
use linyaps.Package.Info.{ExtensionImpl}

abbrev pub value_or : Option Text → Text → Text
value_or none text = text
value_or (some given) text = given

-- A map's value at a key.
unfoldable pub find_value : Text → List (Text × Text) → Option Text
find_value key [] = none
find_value key ((name, value) ∷ rest) =
    let later = find_value key rest in if text_eq name key then some value else later

-- `environment[key] = value`, of a map in the order of its keys.
unfoldable pub set_value : Text → Text → List (Text × Text) → List (Text × Text)
set_value key value [] = (key, value) ∷ []
set_value key value ((name, old) ∷ rest) =
    let later = set_value key value rest in
    if text_eq name key
    then (key, value) ∷ rest
    else if lex_lt key name
    then (key, value) ∷ (name, old) ∷ rest
    else (name, old) ∷ later

-- What an allowed variable of an extension becomes.
unfoldable pub env_value : Text → Text → Text → Text → Text
unfolding replace_substring
env_value id text current default =
    let res = replace_substring text (codes "$PREFIX") (codes "/opt/extensions/" ++ id) in
    if not (is_empty current)
    then replace_substring res (codes "$ORIGIN") current
    else if not (is_empty default)
    then replace_substring res (codes "$ORIGIN") default
    else res

abbrev allow_value : Text → Text → Text → List (Text × Text) → Option Text → List (Text × Text)
allow_value id key text environment none = environment
allow_value id key text environment (some default) =
    set_value key (env_value id text (value_or (find_value key environment) []) default) environment

-- The loop over the variables of an extension.
unfoldable pub add_envs :
    Text → List (Text × Text) → List (Text × Text) → List (Text × Text) → List (Text × Text)
unfolding find_value set_value env_value
add_envs id allow_env [] environment = environment
add_envs id allow_env ((key, text) ∷ envs) environment =
    add_envs id allow_env envs (allow_value id key text environment (find_value key allow_env))

abbrev add_env_of :
    Text
    → List (Text × Text)
    → Option (List (Text × Text))
    → List (Text × Text)
    → List (Text × Text)
add_env_of id allow_env none environment = environment
add_env_of id allow_env (some envs) environment = add_envs id allow_env envs environment

abbrev pub add_impl :
    Text → List (Text × Text) → Option ExtensionImpl → List (Text × Text) → List (Text × Text)
add_impl id allow_env none environment = environment
add_impl id allow_env (some impl) environment = add_env_of id allow_env impl.env environment
