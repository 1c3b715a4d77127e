-- ===== src/Base/Table.antt =====
-- A Go map with string keys, as an association list. The order of the list is the order in which a
-- `range` loop visits the map: Go leaves that order open, and a statement about every list is one
-- about every order.
use mathlib.Core.Path.{◌≡◌, refl, ap, ◌∙◌}
use mathlib.Core.Bool.{false}
use mathlib.Core.Option.{Option, none, some}
use mathlib.Core.List.{List, [], ◌∷◌, ◌++◌, append-nil, append_assoc}
use native.Mathlib.Omega.{arith}
use grpchan.Base.Tests.{if◌then◌else◌}
use grpchan.Base.Text.{Bytes, ◌=?◌, =?_iff}

module _ {ℓ} {V : Type ℓ} where
  unfoldable pub lookup : Bytes → List (Bytes × V) → Option V
  lookup k [] = none
  lookup k ((j, v) ∷ m) = if j =? k then some v else lookup k m

  unfoldable pub insert : Bytes → V → List (Bytes × V) → List (Bytes × V)
  insert k v [] = (k, v) ∷ []
  insert k v ((j, w) ∷ m) = if j =? k then (k, v) ∷ m else (j, w) ∷ insert k v m

  -- The builtin `delete`.
  unfoldable pub delete : Bytes → List (Bytes × V) → List (Bytes × V)
  delete k [] = []
  delete k ((j, w) ∷ m) = if j =? k then delete k m else (j, w) ∷ delete k m

  pub lookup-insert :
      (k j : Bytes) (v : V) (m : List (Bytes × V))
      → lookup j (insert k v m) ≡ (if k =? j then some v else lookup j m)
  unfolding lookup insert
  lookup-insert k j v [] = refl
  lookup-insert k j v ((i, w) ∷ m) =
      ground (arith, =?_iff k j, =?_iff i k, =?_iff i j, lookup-insert k j v m)

  pub lookup-delete :
      (k j : Bytes) (m : List (Bytes × V))
      → lookup j (delete k m) ≡ (if k =? j then none else lookup j m)
  unfolding lookup delete
  lookup-delete k j [] = ground arith
  lookup-delete k j ((i, w) ∷ m) =
      ground (arith, =?_iff k j, =?_iff i k, =?_iff i j, lookup-delete k j m)

-- metadata.MD and http.Header: several values to a key. A missing key reads as no value.
abbrev pub Md : Type 0
Md = List (Bytes × List Bytes)

abbrev or_empty : Option (List Bytes) → List Bytes
or_empty none = []
or_empty (some vs) = vs

unfoldable pub values : Bytes → Md → List Bytes
values k m = or_empty (lookup k m)

pub values-lookup : (j k : Bytes) (a b : Md) → lookup j a ≡ lookup k b → values j a ≡ values k b
unfolding values
values-lookup j k a b e = ap or_empty e

-- m[k] = append(m[k], vs...)
unfoldable pub append_values : Md → Bytes → List Bytes → Md
append_values m k vs = insert k (values k m ++ vs) m

-- for k, v := range md { m[k] = append(m[k], v...) }
unfoldable pub merge : Md → Md → Md
unfolding append_values
merge m [] = m
merge m ((k, vs) ∷ md) = merge (append_values m k vs) md

-- All that a list of entries holds for a key, each entry counted. For a Go map, which has a key
-- once, these are the key's values.
unfoldable pub gathered : Bytes → Md → List Bytes
gathered k [] = []
gathered k ((j, vs) ∷ md) = if j =? k then vs ++ gathered k md else gathered k md

pub values-append_values :
    (m : Md) (k j : Bytes) (vs : List Bytes)
    → values j (append_values m k vs) ≡ (if k =? j then values j m ++ vs else values j m)
unfolding values append_values
values-append_values m k j vs = ground (arith, lookup-insert k j (values k m ++ vs) m, =?_iff k j)

pub values-merge : (m md : Md) (j : Bytes) → values j (merge m md) ≡ values j m ++ gathered j md
unfolding merge gathered
values-merge m [] j = ground (arith, append-nil (values j m))
values-merge m ((k, vs) ∷ md) j = ground (
  arith,
  values-merge (append_values m k vs) md j,
  values-append_values m k j vs,
  append_assoc (values j m) vs (gathered j md),
)

pub merge-nil : (m : Md) → merge m [] ≡ m
unfolding merge
merge-nil m = refl

pub gathered-append : (a b : Md) (k : Bytes) → gathered k (a ++ b) ≡ gathered k a ++ gathered k b
unfolding gathered
gathered-append [] b k = refl
gathered-append ((j, vs) ∷ a) b k =
    ground (arith, gathered-append a b k, append_assoc vs (gathered k a) (gathered k b))

pub values-nil : (k : Bytes) → values k [] ≡ []
unfolding values lookup
values-nil k = refl

pub merge-append : (m a b : Md) → merge m (a ++ b) ≡ merge (merge m a) b
unfolding merge
merge-append m [] b = refl
merge-append m ((k, vs) ∷ a) b = merge-append (append_values m k vs) a b

module _ {V : Type 0} where
  -- Each key of a table once.
  abbrev pub IsUnique : List (Bytes × V) → Type 0
  IsUnique [] = Unit {0}
  IsUnique ((k, vs) ∷ m) = (lookup k m ≡ none) × IsUnique m

  pub insert-IsUnique :
      (k : Bytes) (vs : V) (m : List (Bytes × V)) → IsUnique m → IsUnique (insert k vs m)
  unfolding insert lookup
  insert-IsUnique k vs [] u = (refl, tt)
  insert-IsUnique k vs ((j, ws) ∷ m) u =
      ground (arith, insert-IsUnique k vs m u.1, lookup-insert k j vs m, =?_iff j k, =?_iff k j)

  -- A key that a table does not have goes to its end.
  insert-absent :
      (k : Bytes) (vs : V) (m : List (Bytes × V))
      → lookup k m ≡ none
      → insert k vs m ≡ m ++ (k, vs) ∷ []
  unfolding insert lookup
  insert-absent k vs [] h = refl
  insert-absent k vs ((j, ws) ∷ m) h = ground (arith, insert-absent k vs m)

  lookup-last :
      (j k : Bytes) (vs : V) (m : List (Bytes × V))
      → lookup j m ≡ none
      → (k =? j) ≡ false
      → lookup j (m ++ (k, vs) ∷ []) ≡ none
  unfolding lookup
  lookup-last j k vs [] h e = ground arith
  lookup-last j k vs ((i, ws) ∷ m) h e = ground (arith, lookup-last j k vs m)

  -- for k, vs := range md { m[k] = vs }
  unfoldable pub put_values : List (Bytes × V) → List (Bytes × V) → List (Bytes × V)
  put_values m [] = m
  put_values m ((k, vs) ∷ md) = put_values (insert k vs m) md

  -- No key of the second table is in the first.
  abbrev IsApart : List (Bytes × V) → List (Bytes × V) → Type 0
  IsApart m [] = Unit {0}
  IsApart m ((k, vs) ∷ md) = (lookup k m ≡ none) × IsApart m md

  IsApart-append :
      (m md : List (Bytes × V)) (k : Bytes) (vs : V)
      → lookup k md ≡ none
      → IsApart m md
      → IsApart (m ++ (k, vs) ∷ []) md
  unfolding lookup
  IsApart-append m [] k vs h a = tt
  IsApart-append m ((j, ws) ∷ md) k vs h a =
      ground
        (arith, lookup-last j k vs m a.0, IsApart-append m md k vs, a.1, =?_iff j k, =?_iff k j)

  IsApart-nil : (md : List (Bytes × V)) → IsApart [] md
  unfolding lookup
  IsApart-nil [] = tt
  IsApart-nil ((k, vs) ∷ md) = (refl, IsApart-nil md)

  put_values-apart :
      (m md : List (Bytes × V)) → IsUnique md → IsApart m md → put_values m md ≡ m ++ md
  unfolding put_values
  put_values-apart m [] u a = rw append-nil refl
  put_values-apart m ((k, vs) ∷ md) u a =
      put_values-apart (insert k vs m) md u.1
        (rw (insert-absent k vs m a.0) (IsApart-append m md k vs u.0 a.1))
      ∙ rw (insert-absent k vs m a.0) (append_assoc m ((k, vs) ∷ []) md)

  -- A table that is put into an empty one is copied.
  pub put_values-nil : (md : List (Bytes × V)) → IsUnique md → put_values [] md ≡ md
  put_values-nil md u = put_values-apart [] md u (IsApart-nil md)
