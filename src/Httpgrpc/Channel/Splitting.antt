-- ===== src/Httpgrpc/Channel/Splitting.antt =====
-- The loop of setMetadata: which keys name a trailer, and what the two tables hold.
use grpchan.Base.{
  Option-cases, length, is_empty, drop, drop-append, Bytes, ◌=?◌, =?_iff, strip_prefix,
  strip_prefix-append, lookup, insert, lookup-insert, Md, IsUnique, ◌≡◌, refl, sym, ap, ◌∙◌, inl,
  inr, false, Option, none, some, List, [], ◌∷◌, ◌++◌, arith,
}
use grpchan.Httpgrpc.Headers.RoundTrip.{IsLower, AllLower}
use grpchan.Httpgrpc.Channel.{trailer_prefix, named_trailer, split_trailers}

-- The trailer that a key of the headers names.
abbrev pub name_of : Bytes → Option Bytes
name_of k = named_trailer k (strip_prefix trailer_prefix k)

strip_prefix-some : (p k r : Bytes) → strip_prefix p k ≡ some r → k ≡ p ++ r
unfolding strip_prefix
strip_prefix-some [] k r h = ground arith
strip_prefix-some (c ∷ p) [] r h = ground arith
strip_prefix-some (c ∷ p) (d ∷ k) r h = ground (arith, strip_prefix-some p k r)

pub name_of-prefix : (k : Bytes) → is_empty k ≡ false → name_of (trailer_prefix ++ k) ≡ some k
name_of-prefix k h = rw (strip_prefix-append trailer_prefix k, drop-append trailer_prefix k, h) refl

named_trailer-some :
    (j k : Bytes) (o : Option Bytes)
    → named_trailer j o ≡ some k
    → (k ≡ drop (length trailer_prefix) j) × ((r : Bytes) × (o ≡ some r))
named_trailer-some j k none h = ground arith
named_trailer-some j k (some r) h = (ground arith, (r, refl))

name_of-some : (j k : Bytes) → name_of j ≡ some k → j ≡ trailer_prefix ++ k
name_of-some j k h =
    let (rest, (r, found)) = named_trailer-some j k (strip_prefix trailer_prefix j) h in
    let split : j ≡ trailer_prefix ++ r = strip_prefix-some trailer_prefix j r found in
    split
    ∙ ap (λ x. trailer_prefix ++ x)
        (sym (rest ∙ ap (drop (length trailer_prefix)) split ∙ drop-append trailer_prefix r))

module _ (j : Bytes) (vs : List Bytes) (m t : Md) (lower : IsLower j) where
  split_trailers-stays :
      name_of j ≡ none
      → split_trailers ((j, vs) ∷ m) t ≡ ((j, vs) ∷ (split_trailers m t).0, (split_trailers m t).1)
  unfolding split_trailers
  split_trailers-stays h = rw (lower, h) refl

  split_trailers-moves :
      (name : Bytes)
      → name_of j ≡ some name
      → split_trailers ((j, vs) ∷ m) t ≡ split_trailers m (insert name vs t)
  unfolding split_trailers
  split_trailers-moves name h = rw (lower, h) refl

-- The headers keep what is not a trailer.
pub split_trailers-headers :
    (m t : Md) (k : Bytes)
    → AllLower m
    → name_of k ≡ none
    → lookup k (split_trailers m t).0 ≡ lookup k m
unfolding lookup split_trailers
split_trailers-headers [] t k l h = refl
split_trailers-headers ((j, vs) ∷ m) t k l h = elim (Option-cases (name_of j)) [
  | inl stays ↦
      rw (split_trailers-stays j vs m t l.0 stays)
        (ground (arith, split_trailers-headers m t k l.1 h))
  | inr (name, goes) ↦
      rw (split_trailers-moves j vs m t l.0 name goes)
        (ground (arith, split_trailers-headers m (insert name vs t) k l.1 h, =?_iff j k))
]

-- What a table has, or else another.
abbrev pub or_of : Option (List Bytes) → Option (List Bytes) → Option (List Bytes)
or_of none o = o
or_of (some vs) o = some vs

pub =?-append : (p a b : Bytes) → (p ++ a =? p ++ b) ≡ (a =? b)
unfolding ◌=?◌
=?-append [] a b = refl
=?-append (c ∷ p) a b = ground (arith, =?-append p a b)

pub split_trailers-trailers :
    (m t : Md) (k : Bytes)
    → AllLower m
    → IsUnique m
    → is_empty k ≡ false
    → lookup k (split_trailers m t).1 ≡ or_of (lookup (trailer_prefix ++ k) m) (lookup k t)
unfolding lookup split_trailers
split_trailers-trailers [] t k l u h = refl
split_trailers-trailers ((j, vs) ∷ m) t k l u h = elim (Option-cases (name_of j)) [
  | inl stays ↦ rw (split_trailers-stays j vs m t l.0 stays) (
      ground (
        arith,
        split_trailers-trailers m t k l.1 u.1 h,
        =?_iff j (trailer_prefix ++ k),
        name_of-prefix k h,
      ))
  | inr (name, goes) ↦ rw (split_trailers-moves j vs m t l.0 name goes) (
      ground (
        arith,
        split_trailers-trailers m (insert name vs t) k l.1 u.1 h,
        lookup-insert name k vs t,
        =?_iff j (trailer_prefix ++ k),
        =?_iff name k,
        name_of-some j name goes,
        name_of-prefix k h,
      ))
]
