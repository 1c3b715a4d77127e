-- ===== src/Codegen/Args.antt =====
-- cmd/protoc-gen-grpchan/protoc-gen-grpchan.go: parseArgs and boolVal.
pub mod RoundTrip
use grpchan.Base.{
  ◌==◌, if◌then◌else◌, is_empty, Bytes, codes, ◌=?◌, to_lower, insert, Bool, true, false, not, ◌&&◌,
  ◌||◌, Option, none, some, List, [], ◌∷◌,
}

-- codeGenArgs; a nil map is empty.
pub record CodeGenArgs : Type 0 where
  pub debug : Bool
  pub legacy_stubs : Bool
  pub legacy_desc_names : Bool
  pub import_path : Bytes
  pub import_map : List (Bytes × Bytes)
  pub module_root : Bytes
  pub source_relative : Bool

-- The errors, with what they quote.
pub data ArgsError : Type 0 where
  requires_argument : Bytes → ArgsError
  invalid_boolean : Bytes → Bytes → ArgsError
  invalid_paths : Bytes → ArgsError
  unknown_option : Bytes → ArgsError
  module_and_paths : ArgsError

pub data Parsing (A : Type 0) : Type 0 where
  parsed : A → Parsing A
  refused : ArgsError → Parsing A

abbrev pub no_args : CodeGenArgs
no_args = record {
  debug = false;
  legacy_stubs = false;
  legacy_desc_names = false;
  import_path = [];
  import_map = [];
  module_root = [];
  source_relative = false;
}

-- strings.SplitN(arg, "=", 2)
unfoldable pub split_equals : Bytes → Bytes × Option Bytes
split_equals [] = ([], none)
split_equals (c ∷ cs) =
    let (before, behind) = split_equals cs in
    if c == b'=' then ([], some cs) else (c ∷ before, behind)

abbrev one_of : Bytes → List Bytes → Bool
one_of v [] = false
one_of v (w ∷ ws) = (v =? w) || one_of v ws

-- Of the lower-case letters in these words, no other than the ASCII capital becomes one.
unfoldable pub bool_val : Bytes → Option Bytes → Parsing Bool
bool_val name none = parsed true
bool_val name (some v) =
    if one_of (to_lower v) (codes "true" ∷ codes "on" ∷ codes "yes" ∷ codes "1" ∷ [])
    then parsed true
    else if one_of (to_lower v) (codes "false" ∷ codes "off" ∷ codes "no" ∷ codes "0" ∷ [])
    then parsed false
    else refused (invalid_boolean name v)

abbrev pub and_then : {A B : Type 0} → Parsing A → (A → Parsing B) → Parsing B
and_then (parsed a) f = f a
and_then (refused e) f = refused e

-- The argument of an option that requires one.
abbrev pub required : Bytes → Option Bytes → Parsing Bytes
required name none = refused (requires_argument name)
required name (some v) = parsed v

unfoldable pub paths_val : Bytes → Parsing Bool
paths_val v =
    if v =? codes "import"
    then parsed false
    else if v =? codes "source_relative"
    then parsed true
    else refused (invalid_paths v)

-- The default case of the switch: an M option, or none that is known.
unfoldable pub import_option : Bytes → Option Bytes → CodeGenArgs → Parsing CodeGenArgs
import_option [] value r = refused (unknown_option [])
import_option (c ∷ []) value r = refused (unknown_option (c ∷ []))
import_option (c ∷ d ∷ ds) value r =
    if c == b'M'
    then and_then (required (c ∷ d ∷ ds) value)
        (λ v. parsed (record r { import_map = insert (d ∷ ds) v r.import_map }))
    else refused (unknown_option (c ∷ d ∷ ds))

unfoldable pub parse_option : Bytes → Option Bytes → CodeGenArgs → Parsing CodeGenArgs
unfolding bool_val paths_val import_option
parse_option name value r =
    if name =? codes "debug"
    then and_then (bool_val name value) (λ v. parsed (record r { debug = v }))
    else if name =? codes "legacy_stubs"
    then and_then (bool_val name value) (λ v. parsed (record r { legacy_stubs = v }))
    else if name =? codes "legacy_desc_names"
    then and_then (bool_val name value) (λ v. parsed (record r { legacy_desc_names = v }))
    else if name =? codes "import_path"
    then and_then (required name value) (λ v. parsed (record r { import_path = v }))
    else if name =? codes "module"
    then and_then (required name value) (λ v. parsed (record r { module_root = v }))
    else if name =? codes "paths"
    then and_then (required name value)
        (λ v. and_then (paths_val v) (λ b. parsed (record r { source_relative = b })))
    else import_option name value r

abbrev pub parse_arg : Bytes × Option Bytes → CodeGenArgs → Parsing CodeGenArgs
parse_arg (name, value) r = parse_option name value r

-- The loop over the arguments.
unfoldable pub parse_all : List Bytes → CodeGenArgs → Parsing CodeGenArgs
unfolding split_equals parse_option
parse_all [] r = parsed r
parse_all (arg ∷ args) r = and_then (parse_arg (split_equals arg) r) (parse_all args)

unfoldable pub check_paths : CodeGenArgs → Parsing CodeGenArgs
check_paths r =
    if r.source_relative && not (is_empty r.module_root) then refused module_and_paths else parsed r

unfoldable pub parse_args : List Bytes → Parsing CodeGenArgs
unfolding parse_all check_paths
parse_args args = and_then (parse_all args no_args) check_paths
