-- ===== src/Tests/Cloning.antt =====
-- A message of package proto that is cloned, and the cloner that copies it for a stream.
-- Contents are bytes; merging appends, as it does for repeated fields.
use grpchan.Base.{Bytes, codes, ◌=?◌, Result, ok, ℕ, ◌≡◌, refl, none, some, [], ◌∷◌, ◌++◌}
use grpchan.Registry.{value}
use grpchan.Inproc.{IsFaithful}
use grpchan.Inproc.Cloners.{Object, Heap, pointer, Protos, object_at, store, proto_cloner}
use grpchan.Inproc.Cloners.Laws.{
  IsCopyable, of_proto, proto_cloner_apart, as_seen, proto_cloner-IsFaithful,
}

abbrev appended : Object Bytes → Object Bytes → Result (Unit {0}) × Bytes
appended dest src = (ok tt, dest.contents ++ src.contents)

abbrev protos : Protos Bytes
protos = record {
  is_proto = λ t. t =? codes "P";
  zero_of = λ t. [];
  try_merge = appended;
  proto_clone = λ v. v;
  codec_v2 = none;
  codec_v1 = none;
}

message-IsCopyable : IsCopyable protos (codes "P")
unfolding ◌=?◌
message-IsCopyable = of_proto refl (λ v. refl) (λ v. refl)

abbrev two_objects : Heap Bytes
two_objects =
    (record { type_of = codes "Q"; contents = codes "other" })
    ∷ (record { type_of = codes "P"; contents = codes "hello" })
    ∷ []

proto_cloner_apart_example :
    (fresh : ℕ) × (h' : Heap Bytes) × ((proto_cloner protos).clone (pointer 1) two_objects
      ≡ value (ok (pointer fresh), h'))
    × (object_at fresh h' ≡ some (record { type_of = codes "P"; contents = codes "hello" }))
    × (object_at 1 (store fresh (codes "changed") h')
        ≡ some (record { type_of = codes "P"; contents = codes "hello" }))
    × (object_at fresh (store 1 (codes "changed") h')
        ≡ some (record { type_of = codes "P"; contents = codes "hello" }))
unfolding object_at
proto_cloner_apart_example =
    proto_cloner_apart protos (codes "P") 1 (codes "hello") (codes "changed") two_objects
      message-IsCopyable refl

proto_cloner-IsFaithful_example :
    IsFaithful (as_seen (codes "P") (codes "old") (proto_cloner protos))
proto_cloner-IsFaithful_example =
    proto_cloner-IsFaithful protos (codes "P") (codes "old") message-IsCopyable
