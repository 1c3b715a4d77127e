-- ===== src/Inproc/Cloners.antt =====
-- inprocgrpc/cloner.go, and CopyMessage, CloneMessage and ClearMessage of internal/misc.go: the cloners, on a heap of
-- objects. What hangs below a message counts as its contents. Package proto, the registered codecs and
-- the zero value of a type are parameters; errors of this code are told apart by their texts.
pub mod Laws
use grpchan.Base.{
  if◌then◌else◌, length, Bytes, ◌=?◌, other, Result, ok, err, ℕ, zero, suc, Bool, false, not, ◌&&◌,
  Option, none, some, List, [], ◌∷◌, ◌++◌,
}
use grpchan.Registry.{Outcome, value, panic}

-- A Go value behind a pointer, with the name of its type.
pub record Object (V : Type 0) : Type 0 where
  pub type_of : Bytes
  pub contents : V

-- The object of address a is the one at index a; a new one stands at the end.
abbrev pub Heap : Type 0 → Type 0
Heap V = List (Object V)

-- A value in an interface{} that is not nil: a pointer to an object, or a value that is none.
pub data Any (V : Type 0) : Type 0 where
  pointer : ℕ → Any V
  plain : Object V → Any V

-- Calls on the heap, which may panic: what a func(out, in interface{}) error and a
-- func(interface{}) (interface{}, error) do.
abbrev pub CopyFn : Type 0 → Type 0
CopyFn V = Any V → Any V → Heap V → Outcome (Result (Unit {0}) × Heap V)

abbrev pub CloneFn : Type 0 → Type 0
CloneFn V = Any V → Heap V → Outcome (Result (Any V) × Heap V)

-- The interface Cloner, and funcCloner
pub record HeapCloner (V : Type 0) : Type 0 where
  pub copy : CopyFn V
  pub clone : CloneFn V

-- encoding.Codec and encoding.CodecV2: Unmarshal is given the type and the contents of its target and
-- gives its contents behind the call.
pub record ObjectCodec (V : Type 0) : Type 0 where
  pub marshal : Object V → Result Bytes
  pub unmarshal : Bytes → Object V → Result (Unit {0}) × V

-- What ProtoCloner calls: whether a type is a proto.Message, Reset, dynamic.TryMerge, proto.Clone, and
-- the codecs that are registered for "proto".
pub record Protos (V : Type 0) : Type 0 where
  pub is_proto : Bytes → Bool
  pub zero_of : Bytes → V
  pub try_merge : Object V → Object V → Result (Unit {0}) × V
  pub proto_clone : V → V
  pub codec_v2 : Option (ObjectCodec V)
  pub codec_v1 : Option (ObjectCodec V)

module _ {V : Type 0} where
  unfoldable pub object_at : ℕ → Heap V → Option (Object V)
  object_at a [] = none
  object_at zero (o ∷ h) = some o
  object_at (suc a) (o ∷ h) = object_at a h

  -- Contents written through a pointer.
  unfoldable pub store : ℕ → V → Heap V → Heap V
  store a v [] = []
  store zero v (o ∷ h) = record o { contents = v } ∷ h
  store (suc a) v (o ∷ h) = o ∷ store a v h

  -- reflect.New, with the address of the new object.
  unfoldable pub allocate : Object V → Heap V → ℕ × Heap V
  allocate o h = (length h, h ++ o ∷ [])

  -- reflect.Indirect
  unfoldable pub indirect : Any V → Heap V → Option (Object V)
  indirect (pointer a) h = object_at a h
  indirect (plain o) h = some o

  abbrev assign_to : Any V → Object V → Object V → Heap V → Result (Unit {0}) × Heap V
  assign_to out src dest h =
      if not (src.type_of =? dest.type_of)
      then (err (other "incompatible types"), h)
      else elim out [
        | pointer a ↦ (ok tt, store a src.contents h)
        | plain o ↦ (err (other "unable to set destination"), h)
      ]

  abbrev shallow :
      Any V → Option (Object V) → Option (Object V) → Heap V → Outcome (Result (Unit {0}) × Heap V)
  shallow out (some src) (some dest) h = value (assign_to out src dest h)
  shallow out none dest h = panic "invalid memory address"
  shallow out (some src) none h = panic "invalid memory address"

  abbrev shallow_copy :
      Any V → Outcome (Result (Any V) × Heap V) → Outcome (Result (Unit {0}) × Heap V)
  shallow_copy out (panic why) = panic why
  shallow_copy out (value (err e, h)) = value (err e, h)
  shallow_copy out (value (ok src, h)) = shallow out (indirect src h) (indirect out h) h

  unfoldable pub clone_func : CloneFn V → HeapCloner V
  unfolding indirect store
  clone_func fn = record { copy = λ out src h. shallow_copy out (fn src h); clone = fn }

  abbrev copied_into : ℕ → Outcome (Result (Unit {0}) × Heap V) → Outcome (Result (Any V) × Heap V)
  copied_into a (panic why) = panic why
  copied_into a (value (err e, h)) = value (err e, h)
  copied_into a (value (ok done, h)) = value (ok (pointer a), h)

  -- reflect.TypeOf(in).Elem() panics for what is no pointer.
  abbrev new_like :
      (Bytes → V)
      → CopyFn V
      → Any V
      → Option (Object V)
      → Heap V
      → Outcome (Result (Any V) × Heap V)
  new_like zero_of fn (plain o) target h = panic "reflect: Elem of invalid type"
  new_like zero_of fn (pointer a) none h = panic "invalid memory address"
  new_like zero_of fn (pointer a) (some o) h =
      let (fresh, h') = allocate (record { type_of = o.type_of; contents = zero_of o.type_of }) h in
      copied_into fresh (fn (pointer fresh) (pointer a) h')

  unfoldable pub copy_func : (Bytes → V) → CopyFn V → HeapCloner V
  unfolding allocate indirect
  copy_func zero_of fn = record {
    copy = fn;
    clone = λ src h. new_like zero_of fn src (indirect src h) h;
  }

module _ {V : Type 0} where
  abbrev written : Any V → Heap V → Result (Unit {0}) × V → Outcome (Result (Unit {0}) × Heap V)
  written (pointer a) h (r, v) = value (r, store a v h)
  written (plain o) h (r, v) = value (r, h)

  abbrev decoded_into :
      ObjectCodec V
      → Any V
      → Option (Object V)
      → Heap V
      → Result Bytes
      → Outcome (Result (Unit {0}) × Heap V)
  decoded_into codec out dest h (err e) = value (err e, h)
  decoded_into codec out none h (ok b) = panic "invalid memory address"
  decoded_into codec out (some dest) h (ok b) = written out h (codec.unmarshal b dest)

  abbrev recoded :
      ObjectCodec V → Any V → Option (Object V) → Heap V → Outcome (Result (Unit {0}) × Heap V)
  recoded codec out none h = panic "invalid memory address"
  recoded codec out (some src) h = decoded_into codec out (indirect out h) h (codec.marshal src)

  -- CodecCloner and CodecClonerV2
  unfoldable pub codec_cloner : (Bytes → V) → ObjectCodec V → HeapCloner V
  unfolding indirect store
  codec_cloner zero_of codec = copy_func zero_of (λ out src h. recoded codec out (indirect src h) h)

  -- The codec that is registered for messages that are not proto.Message.
  abbrev with_codec :
      {R : Type 0}
      → Protos V
      → (HeapCloner V → Outcome R)
      → Option (ObjectCodec V)
      → Option (ObjectCodec V)
      → Outcome R
  with_codec pr use_of (some codec) v1 = use_of (codec_cloner pr.zero_of codec)
  with_codec pr use_of none (some codec) = use_of (codec_cloner pr.zero_of codec)
  with_codec pr use_of none none = panic "no codec found"

  abbrev merged :
      Protos V
      → Any V
      → Object V
      → Option (Object V)
      → Heap V
      → Outcome (Result (Unit {0}) × Heap V)
  merged pr out dest none h = panic "invalid memory address"
  merged pr out dest (some src) h = written out h (pr.try_merge dest src)

  abbrev reset_and_merge :
      Protos V → Any V → Any V → Object V → Heap V → Outcome (Result (Unit {0}) × Heap V)
  reset_and_merge pr (plain o) src dest h = merged pr (plain o) dest (indirect src h) h
  reset_and_merge pr (pointer a) src dest h =
      let v = pr.zero_of dest.type_of in
      let h' = store a v h in
      merged pr (pointer a) (record dest { contents = v }) (indirect src h') h'

  -- CopyMessage: what the source holds is read behind the Reset of the target.
  unfoldable pub copy_message : Protos V → CopyFn V
  unfolding indirect store
  copy_message pr out src h = elim (indirect src h) [
    | none ↦ panic "invalid memory address"
    | some o ↦ elim (indirect out h) [
      | none ↦ panic "invalid memory address"
      | some dest ↦
          if not (pr.is_proto o.type_of)
          then value (err (other "value to copy is not a proto.Message"), h)
          else if not (pr.is_proto dest.type_of)
          then value (err (other "destination for copy is not a proto.Message"), h)
          else reset_and_merge pr out src dest h
    ]
  ]

  -- CloneMessage; proto.Clone gives a new object.
  unfoldable pub clone_message : Protos V → CloneFn V
  unfolding indirect allocate
  clone_message pr src h = elim (indirect src h) [
    | none ↦ panic "invalid memory address"
    | some o ↦
        if not (pr.is_proto o.type_of)
        then value (err (other "value to clone is not a proto.Message"), h)
        else let (fresh, h') = allocate (record o { contents = pr.proto_clone o.contents }) h in
          value (ok (pointer fresh), h')
  ]

  -- Whether the type assertion to proto.Message holds.
  abbrev is_message : Protos V → Any V → Heap V → Bool
  is_message pr v h = elim (indirect v h) [ none ↦ false | some o ↦ pr.is_proto o.type_of ]

  -- ProtoCloner
  unfoldable pub proto_cloner : Protos V → HeapCloner V
  unfolding indirect codec_cloner copy_message clone_message
  proto_cloner pr = record {
    copy = λ out src h.
        if is_message pr src h && is_message pr out h
        then copy_message pr out src h
        else with_codec pr (λ c. c.copy out src h) pr.codec_v2 pr.codec_v1;
    clone = λ src h.
        if is_message pr src h
        then clone_message pr src h
        else with_codec pr (λ c. c.clone src h) pr.codec_v2 pr.codec_v1;
  }

  -- ClearMessage
  unfoldable pub clear_message : (Bytes → V) → Any V → Heap V → Outcome (Result (Unit {0}) × Heap V)
  unfolding indirect store
  clear_message zero_of (plain o) h = value (err (other "unable to set destination"), h)
  clear_message zero_of (pointer a) h = elim (object_at a h) [
    | none ↦ value (err (other "unable to set destination"), h)
    | some o ↦ value (ok tt, store a (zero_of o.type_of) h)
  ]
