-- ===== src/Inproc/Cloners/Laws.antt =====
-- What the cloners leave on the heap: a copy under another address, apart from the original.
use grpchan.Base.{
  length, Bytes, =?_refl, other, Result, ok, err, ℕ, zero, suc, ◌<◌, ◌≡◌, refl, sym, ap, ◌∙◌, true,
  false, Option, none, some, [], ◌∷◌, ◌++◌, arith,
}
use grpchan.Registry.{Outcome, value, panic}
use grpchan.Inproc.{Cloner, IsFaithful}
use grpchan.Inproc.Cloners.{
  Object, Heap, Any, pointer, CopyFn, CloneFn, HeapCloner, ObjectCodec, Protos, object_at, store,
  allocate, indirect, clone_func, copy_func, codec_cloner, copy_message, clone_message,
  proto_cloner,
}

module _ {V : Type 0} where
  object_at-allocated : (o : Object V) (h : Heap V) → object_at (length h) (h ++ o ∷ []) ≡ some o
  unfolding object_at
  object_at-allocated o [] = refl
  object_at-allocated o (x ∷ h) = object_at-allocated o h

  object_at-extended :
      (a : ℕ) (o : Object V) (h : Heap V) {x : Object V}
      → object_at a h ≡ some x
      → object_at a (h ++ o ∷ []) ≡ some x
  unfolding object_at
  object_at-extended a o [] e = ground arith
  object_at-extended zero o (x ∷ h) e = e
  object_at-extended (suc a) o (x ∷ h) e = object_at-extended a o h e

  object_at-below : (a : ℕ) (h : Heap V) {x : Object V} → object_at a h ≡ some x → a < length h
  unfolding object_at
  object_at-below a [] e = ground arith
  object_at-below zero (x ∷ h) e = omega arith
  object_at-below (suc a) (x ∷ h) e = omega (arith, object_at-below a h e)

  object_at-store :
      (a b : ℕ) (v : V) (h : Heap V) → ¬ (a ≡ b) → object_at b (store a v h) ≡ object_at b h
  unfolding object_at store
  object_at-store a b v [] differ = refl
  object_at-store zero zero v (x ∷ h) differ = ground arith
  object_at-store zero (suc b) v (x ∷ h) differ = refl
  object_at-store (suc a) zero v (x ∷ h) differ = refl
  object_at-store (suc a) (suc b) v (x ∷ h) differ =
      object_at-store a b v h (λ e. differ (ap suc e))

  object_at-stored :
      (a : ℕ) (v : V) (h : Heap V) {x : Object V}
      → object_at a h ≡ some x
      → object_at a (store a v h) ≡ some (record x { contents = v })
  unfolding object_at store
  object_at-stored a v [] e = ground arith
  object_at-stored zero v (x ∷ h) e = ground arith
  object_at-stored (suc a) v (x ∷ h) e = object_at-stored a v h e

  store-allocated :
      (t : Bytes) (v w : V) (h : Heap V)
      → store (length h) v (h ++ (record { type_of = t; contents = w }) ∷ [])
        ≡ h ++ (record { type_of = t; contents = v }) ∷ []
  unfolding store
  store-allocated t v w [] = refl
  store-allocated t v w (x ∷ h) = ap (λ r. x ∷ r) (store-allocated t v w h)

  store_twice : (a : ℕ) (v w : V) (h : Heap V) → store a v (store a w h) ≡ store a v h
  unfolding store
  store_twice a v w [] = refl
  store_twice zero v w (x ∷ h) = refl
  store_twice (suc a) v w (x ∷ h) = ap (λ r. x ∷ r) (store_twice a v w h)

-- A function that copies the messages of a type to other addresses of the type.
abbrev pub Copies : {V : Type 0} → Bytes → CopyFn V → Type 0
Copies {V} t fn =
    (out src : ℕ) (v w : V) (h : Heap V)
    → ¬ (out ≡ src)
    → object_at src h ≡ some (record { type_of = t; contents = v })
    → object_at out h ≡ some (record { type_of = t; contents = w })
    → fn (pointer out) (pointer src) h ≡ value (ok tt, store out v h)

-- A function that clones the messages of a type.
abbrev pub Clones : {V : Type 0} → Bytes → CloneFn V → Type 0
Clones {V} t fn =
    (src : ℕ) (v : V) (h : Heap V)
    → object_at src h ≡ some (record { type_of = t; contents = v })
    → fn (pointer src) h
      ≡ value (ok (pointer (length h)), h ++ record { type_of = t; contents = v } ∷ [])

module _ {V : Type 0} (t : Bytes) (zero_of : Bytes → V) where
  pub copy_func-Clones : (fn : CopyFn V) → Copies t fn → Clones t (copy_func zero_of fn).clone
  unfolding copy_func allocate indirect
  copy_func-Clones fn copies src v h at_src =
      let blank : Object V = record { type_of = t; contents = zero_of t } in
      let below = object_at-below src h at_src in
      rw
        (
          at_src,
          copies (length h) src v (zero_of t) (h ++ blank ∷ []) (λ same. omega (arith, same))
              (object_at-extended src blank h at_src) (object_at-allocated blank h),
          store-allocated t v (zero_of t) h,
        )
        refl

  -- CloneFunc: the clone stays on the heap, and the target gets its contents.
  pub clone_func-copy :
      (fn : CloneFn V) (out src : ℕ) (v w : V) (h : Heap V)
      → Clones t fn
      → object_at src h ≡ some (record { type_of = t; contents = v })
      → object_at out h ≡ some (record { type_of = t; contents = w })
      → (clone_func fn).copy (pointer out) (pointer src) h
        ≡ value (ok tt, store out v (h ++ record { type_of = t; contents = v } ∷ []))
  unfolding clone_func indirect
  clone_func-copy fn out src v w h clones at_src at_out =
      rw
        (
          clones src v h at_src,
          object_at-allocated (record { type_of = t; contents = v }) h,
          object_at-extended out (record { type_of = t; contents = v }) h at_out,
          =?_refl t,
        )
        refl

  module _ (codec : ObjectCodec V) (wire : V → Bytes) where
    -- A codec that decodes what it encodes, whatever its target held.
    pub record Recodes : Type 0 where
      pub encodes : (v : V) → codec.marshal (record { type_of = t; contents = v }) ≡ ok (wire v)
      pub decodes :
          (v w : V) → codec.unmarshal (wire v) (record { type_of = t; contents = w }) ≡ (ok tt, v)

    pub codec_cloner-Copies : Recodes → Copies t (codec_cloner zero_of codec).copy
    unfolding codec_cloner copy_func indirect
    codec_cloner-Copies lossless out src v w h apart at_src at_out =
        rw (at_src, at_out, lossless.encodes v, lossless.decodes v w) refl

    pub codec_cloner-Clones : Recodes → Clones t (codec_cloner zero_of codec).clone
    unfolding codec_cloner copy_func
    codec_cloner-Clones lossless =
        copy_func-Clones (codec_cloner zero_of codec).copy (codec_cloner-Copies lossless)

module _ {V : Type 0} (pr : Protos V) (t : Bytes) where
  -- What ProtoCloner relies on for the messages of a type: they are of package proto, whose merge into
  -- an empty message and whose clone keep the contents, or the registered codec is lossless for them.
  pub data IsCopyable : Type 0 where
    of_proto :
        pr.is_proto t ≡ true
        → ((v : V)
            → pr.try_merge
                (record { type_of = t; contents = pr.zero_of t })
                (record { type_of = t; contents = v })
              ≡ (ok tt, v))
        → ((v : V) → pr.proto_clone v ≡ v)
        → IsCopyable
    of_codec :
        (codec : ObjectCodec V) (wire : V → Bytes)
        → pr.is_proto t ≡ false
        → pr.codec_v2 ≡ some codec
        → Recodes t pr.zero_of codec wire
        → IsCopyable

  proto_cloner-Copies : IsCopyable → Copies t (proto_cloner pr).copy
  unfolding proto_cloner copy_message indirect
  proto_cloner-Copies (of_proto is merges clones) out src v w h apart at_src at_out = ground (
    arith,
    object_at-store out src (pr.zero_of t) h apart,
    merges v,
    store_twice out v (pr.zero_of t) h,
  )
  proto_cloner-Copies (of_codec codec wire not_proto registered lossless) out src v w h apart at_src
        at_out =
      ground (
        arith,
        codec_cloner-Copies t pr.zero_of codec wire lossless out src v w h apart at_src at_out,
      )

  proto_cloner-Clones : IsCopyable → Clones t (proto_cloner pr).clone
  unfolding proto_cloner clone_message indirect allocate
  proto_cloner-Clones (of_proto is merges clones) src v h at_src = ground (arith, clones v)
  proto_cloner-Clones (of_codec codec wire not_proto registered lossless) src v h at_src =
      ground (arith, codec_cloner-Clones t pr.zero_of codec wire lossless src v h at_src)

  -- The clone that ProtoCloner makes of a message and the message are apart: what is written to one of
  -- them later leaves the other as it was, if the message's type is of package proto, whose clones keep
  -- the contents, or if it is not, but a codec is registered that is lossless for it.
  pub proto_cloner_apart :
      (src : ℕ) (v x : V) (h : Heap V)
      → IsCopyable
      → object_at src h ≡ some (record { type_of = t; contents = v })
      → (fresh : ℕ) × (h' : Heap V) × ((proto_cloner pr).clone (pointer src) h
          ≡ value (ok (pointer fresh), h'))
        × (object_at fresh h' ≡ some (record { type_of = t; contents = v }))
        × (object_at src (store fresh x h') ≡ some (record { type_of = t; contents = v }))
        × (object_at fresh (store src x h') ≡ some (record { type_of = t; contents = v }))
  proto_cloner_apart src v x h copyable at_src =
      let o : Object V = record { type_of = t; contents = v } in
      let differ : ¬ (src ≡ length h) = λ same. omega (arith, same, object_at-below src h at_src) in
      (
        length h,
        h ++ o ∷ [],
        proto_cloner-Clones copyable src v h at_src,
        object_at-allocated o h,
        object_at-store (length h) src x (h ++ o ∷ []) (λ same. differ (sym same))
            ∙ object_at-extended src o h at_src,
        object_at-store src (length h) x (h ++ o ∷ []) differ ∙ object_at-allocated o h,
      )

module _ {V : Type 0} where
  -- How the streams see a cloner: a message is copied into another one of its type, or cloned, and the
  -- other side reads what the result holds.
  abbrev seen : Option (Object V) → Result V
  seen none = err (other "no message")
  seen (some o) = ok o.contents

  abbrev copied_view : ℕ → Outcome (Result (Unit {0}) × Heap V) → Result V
  copied_view a (panic why) = err (other why)
  copied_view a (value (err e, h)) = err e
  copied_view a (value (ok done, h)) = seen (object_at a h)

  abbrev cloned_view : Outcome (Result (Any V) × Heap V) → Result V
  cloned_view (panic why) = err (other why)
  cloned_view (value (err e, h)) = err e
  cloned_view (value (ok v, h)) = seen (indirect v h)

  abbrev pub as_seen : Bytes → V → HeapCloner V → Cloner V
  as_seen t blank c =
      let message : V → Object V = λ v. record { type_of = t; contents = v } in
      record {
        copy = λ v. copied_view 1 (c.copy (pointer 1) (pointer 0) (message v ∷ message blank ∷ []));
        clone = λ v. cloned_view (c.clone (pointer 0) (message v ∷ []));
      }

  as_seen-IsFaithful :
      (t : Bytes) (blank : V) (c : HeapCloner V)
      → Copies t c.copy
      → Clones t c.clone
      → IsFaithful (as_seen t blank c)
  unfolding indirect object_at store
  as_seen-IsFaithful t blank c copies clones =
      let message : V → Object V = λ v. record { type_of = t; contents = v } in
      record {
        copies = λ v. ap (copied_view 1) (
            copies 1 0 v blank (message v ∷ message blank ∷ []) (λ same. omega (arith, same)) refl
              refl);
        clones = λ v. ap cloned_view (clones 0 v (message v ∷ []) refl);
      }

  -- ProtoCloner is a cloner as the streams want it, for the messages of a type of package proto, whose
  -- merge into an empty message and whose clone keep the contents, and for those of any other type, if
  -- a codec is registered that is lossless for it.
  pub proto_cloner-IsFaithful :
      (pr : Protos V) (t : Bytes) (blank : V)
      → IsCopyable pr t
      → IsFaithful (as_seen t blank (proto_cloner pr))
  proto_cloner-IsFaithful pr t blank copyable =
      as_seen-IsFaithful t blank (proto_cloner pr) (proto_cloner-Copies pr t copyable)
        (proto_cloner-Clones pr t copyable)
