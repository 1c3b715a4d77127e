-- ===== src/Inproc/Unary/Routing.antt =====
-- How Channel.Invoke finds a method, lemma by lemma.
use grpchan.Base.{
  ◌==◌, ==_iff, All, Bytes, codes, ok, err, ℕ, ◌≡◌, refl, ◌⊎◌, Bool, false, none, some, [], ◌∷◌,
  ◌++◌, arith,
}
use grpchan.Grpc.{MethodDesc, ServiceDesc}
use grpchan.Registry.{value, HandlerMap, query_service}
use grpchan.Internal.Misc.{find_unary_method}
use grpchan.Internal.CallOptions.{Context, Metadata, CallOptions, apply_per_rpc_creds}
use grpchan.Inproc.Unary.{split_slash, with_slash, unimplemented, find_method}

-- A text without a slash.
abbrev pub SlashFree : Bytes → Type 0
SlashFree = All (λ c. (c == b'/') ≡ false)

pub split_slash-free : (s : Bytes) → SlashFree s → split_slash s ≡ (s, none)
unfolding split_slash
split_slash-free [] f = refl
split_slash-free (c ∷ cs) f = ground (arith, split_slash-free cs f.1)

pub split_slash-append : (s m : Bytes) → SlashFree s → split_slash (s ++ (b'/' ∷ m)) ≡ (s, some m)
unfolding split_slash
split_slash-append [] m f = refl
split_slash-append (c ∷ cs) m f = ground (arith, split_slash-append cs m f.1)

pub apply_per_rpc_creds-none :
    (api : Metadata) (ctx : Context) (co : CallOptions) (uri : Bytes) (secure : Bool)
    → co.creds ≡ none
    → apply_per_rpc_creds api ctx co uri secure ≡ ok ctx
unfolding apply_per_rpc_creds
apply_per_rpc_creds-none api ctx co uri secure e = rw e refl

pub with_slash_same :
    (c : ℕ) (cs : Bytes) → with_slash (c ∷ cs) ≡ with_slash (b'/' ∷ c ∷ cs) ⊎ (c ≡ b'/')
unfolding with_slash
with_slash_same c cs = ground (arith, ==_iff c b'/')

pub find_method_missing :
    {U S H : Type 0} (handlers : HandlerMap U S H) (service name : Bytes)
    → query_service handlers service ≡ none
    → find_method handlers (service, some name)
      ≡ value (err (unimplemented (codes "service " ++ service ++ codes " not implemented")))
unfolding find_method
find_method_missing handlers service name e = rw (e, find_method) refl

pub find_method_lacking :
    {U S H : Type 0} (handlers : HandlerMap U S H) (service name : Bytes) (sd : ServiceDesc U S)
    (h : H)
    → query_service handlers service ≡ some (sd, h)
    → find_unary_method name sd.methods ≡ none
    → find_method handlers (service, some name)
      ≡ value (
          err (
            unimplemented
              (codes "method " ++ service ++ (b'/' ∷ name) ++ codes " not implemented")))
unfolding find_method
find_method_lacking handlers service name sd h e l = rw (e, find_method, l) refl

pub find_method_found :
    {U S H : Type 0} (handlers : HandlerMap U S H) (service name : Bytes) (sd : ServiceDesc U S)
    (h : H) (md : MethodDesc U)
    → query_service handlers service ≡ some (sd, h)
    → find_unary_method name sd.methods ≡ some md
    → find_method handlers (service, some name) ≡ value (ok (h, md))
unfolding find_method
find_method_found handlers service name sd h md e l = rw (e, find_method, l) refl

-- The full name of a method.
abbrev pub full_name : Bytes → Bytes → Bytes
full_name service name = b'/' ∷ service ++ (b'/' ∷ name)
