-- ===== src/Codegen/Args/RoundTrip.antt =====
-- Arguments as they are written for the plugin, and read back.
use grpchan.Base.{
  ◌==◌, All, is_empty, Bytes, codes, ◌=?◌, to_lower, insert, IsUnique, put_values, put_values-nil,
  ◌≡◌, refl, Bool, true, false, not, ◌&&◌, some, List, [], ◌∷◌, ◌++◌, arith,
}
use grpchan.Codegen.Args.{
  CodeGenArgs, parsed, no_args, split_equals, bool_val, paths_val, import_option, parse_option,
  parse_arg, parse_all, check_paths, parse_args,
}

abbrev pub flag : Bytes → Bool → Bytes
flag name true = name ++ codes "=true"
flag name false = name ++ codes "=false"

abbrev pub paths_text : Bool → Bytes
paths_text true = codes "paths=source_relative"
paths_text false = codes "paths=import"

abbrev pub import_texts : List (Bytes × Bytes) → List Bytes
import_texts [] = []
import_texts ((k, v) ∷ m) = (b'M' ∷ k ++ (b'=' ∷ v)) ∷ import_texts m

-- Every option, written out.
abbrev pub print_args : CodeGenArgs → List Bytes
print_args a =
    flag (codes "debug") a.debug
    ∷ flag (codes "legacy_stubs") a.legacy_stubs
    ∷ flag (codes "legacy_desc_names") a.legacy_desc_names
    ∷ (codes "import_path=" ++ a.import_path)
    ∷ (codes "module=" ++ a.module_root)
    ∷ paths_text a.source_relative
    ∷ import_texts a.import_map

debug-flag :
    (b : Bool) (r : CodeGenArgs)
    → parse_arg (split_equals (flag (codes "debug") b)) r ≡ parsed (record r { debug = b })
unfolding split_equals parse_option bool_val to_lower ◌=?◌
debug-flag true r = refl
debug-flag false r = refl

legacy_stubs-flag :
    (b : Bool) (r : CodeGenArgs)
    → parse_arg (split_equals (flag (codes "legacy_stubs") b)) r
      ≡ parsed (record r { legacy_stubs = b })
unfolding split_equals parse_option bool_val to_lower ◌=?◌
legacy_stubs-flag true r = refl
legacy_stubs-flag false r = refl

legacy_desc_names-flag :
    (b : Bool) (r : CodeGenArgs)
    → parse_arg (split_equals (flag (codes "legacy_desc_names") b)) r
      ≡ parsed (record r { legacy_desc_names = b })
unfolding split_equals parse_option bool_val to_lower ◌=?◌
legacy_desc_names-flag true r = refl
legacy_desc_names-flag false r = refl

import_path-text :
    (v : Bytes) (r : CodeGenArgs)
    → parse_arg (split_equals (codes "import_path=" ++ v)) r ≡ parsed (record r { import_path = v })
unfolding split_equals parse_option ◌=?◌
import_path-text v r = refl

module-text :
    (v : Bytes) (r : CodeGenArgs)
    → parse_arg (split_equals (codes "module=" ++ v)) r ≡ parsed (record r { module_root = v })
unfolding split_equals parse_option ◌=?◌
module-text v r = refl

paths-text :
    (b : Bool) (r : CodeGenArgs)
    → parse_arg (split_equals (paths_text b)) r ≡ parsed (record r { source_relative = b })
unfolding split_equals parse_option paths_val ◌=?◌
paths-text true r = refl
paths-text false r = refl

-- A text without an equals sign.
abbrev pub EqualsFree : Bytes → Type 0
EqualsFree = All (λ c. (c == b'=') ≡ false)

split_equals-append : (k v : Bytes) → EqualsFree k → split_equals (k ++ (b'=' ∷ v)) ≡ (k, some v)
unfolding split_equals
split_equals-append [] v f = refl
split_equals-append (c ∷ cs) v f = ground (arith, split_equals-append cs v f.1)

-- The names of an import map: not empty, without an equals sign, each once.
abbrev pub IsNamed : List (Bytes × Bytes) → Type 0
IsNamed [] = Unit {0}
IsNamed ((k, v) ∷ m) = (is_empty k ≡ false) × EqualsFree k × IsNamed m

import-text :
    (k v : Bytes) (r : CodeGenArgs)
    → is_empty k ≡ false
    → EqualsFree k
    → parse_arg (split_equals (b'M' ∷ k ++ (b'=' ∷ v))) r
      ≡ parsed (record r { import_map = insert k v r.import_map })
unfolding parse_option import_option ◌=?◌
import-text [] v r named free = ground arith
import-text (c ∷ cs) v r named free = rw (split_equals-append (b'M' ∷ c ∷ cs) v (refl, free)) refl

parse_all-import_texts :
    (m : List (Bytes × Bytes)) (r : CodeGenArgs)
    → IsNamed m
    → parse_all (import_texts m) r ≡ parsed (record r { import_map = put_values r.import_map m })
unfolding parse_all put_values
parse_all-import_texts [] r named = refl
parse_all-import_texts ((k, v) ∷ m) r named =
    rw (import-text k v r named.0 named.1)
      (parse_all-import_texts m (record r { import_map = insert k v r.import_map }) named.2)

-- Arguments that are written out in full are read back, if the names of the import map are not empty,
-- have no equals sign and stand there once each, and the module is not given with source-relative
-- paths.
pub parse_args-print_args :
    (a : CodeGenArgs)
    → IsNamed a.import_map
    → IsUnique a.import_map
    → (a.source_relative && not (is_empty a.module_root)) ≡ false
    → parse_args (print_args a) ≡ parsed a
unfolding parse_args check_paths parse_all
parse_args-print_args a named unique apart =
    let r1 = record no_args { debug = a.debug } in
    let r2 = record r1 { legacy_stubs = a.legacy_stubs } in
    let r3 = record r2 { legacy_desc_names = a.legacy_desc_names } in
    let r4 = record r3 { import_path = a.import_path } in
    let r5 = record r4 { module_root = a.module_root } in
    rw
      (
        debug-flag a.debug no_args,
        legacy_stubs-flag a.legacy_stubs r1,
        legacy_desc_names-flag a.legacy_desc_names r2,
        import_path-text a.import_path r3,
        module-text a.module_root r4,
        paths-text a.source_relative r5,
        parse_all-import_texts a.import_map (record r5 { source_relative = a.source_relative })
            named,
        put_values-nil a.import_map unique,
        apart,
      )
      refl
