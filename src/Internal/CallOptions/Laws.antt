-- ===== src/Internal/CallOptions/Laws.antt =====
-- Which variables the options set, and when credentials are applied.
use grpchan.Base.{
  ◌==◌, if◌then◌else◌, Bytes, Md, values, other, ok, err, ℕ, ◌≡◌, refl, sym, ◌∙◌, Bool, true, false,
  not, ◌&&◌, ◌||◌, Option, none, some, List, [], ◌∷◌, ◌++◌, append-nil, append_assoc, arith,
}
use grpchan.Internal.CallOptions.{
  Context, Metadata, Creds, CallOption, header_addr, trailer_addr, peer_addr, per_rpc_creds,
  CallOptions, Store, assign, assign_all, set_headers, set_trailers, add_option, no_options,
  add_options, get_call_options, apply_per_rpc_creds,
}

-- The header addresses of the options, in order.
abbrev header_addrs : List CallOption → List ℕ
header_addrs [] = []
header_addrs (header_addr p ∷ os) = p ∷ header_addrs os
header_addrs (_ ∷ os) = header_addrs os

abbrev trailer_addrs : List CallOption → List ℕ
trailer_addrs [] = []
trailer_addrs (trailer_addr p ∷ os) = p ∷ trailer_addrs os
trailer_addrs (_ ∷ os) = trailer_addrs os

abbrev peer_addrs : List CallOption → List ℕ
peer_addrs [] = []
peer_addrs (peer_addr p ∷ os) = p ∷ peer_addrs os
peer_addrs (_ ∷ os) = peer_addrs os

-- The last credentials option, or what was there before.
abbrev last_creds : Option Creds → List CallOption → Option Creds
last_creds c [] = c
last_creds c (per_rpc_creds d ∷ os) = last_creds (some d) os
last_creds c (_ ∷ os) = last_creds c os

add_options-headers :
    (co : CallOptions) (os : List CallOption)
    → (add_options co os).headers ≡ co.headers ++ header_addrs os
unfolding add_options add_option
add_options-headers co [] = sym (append-nil co.headers)
add_options-headers co (header_addr p ∷ os) =
    add_options-headers (add_option co (header_addr p)) os ∙ append_assoc co.headers (p ∷ []) _
add_options-headers co (o ∷ os) = add_options-headers (add_option co o) os

add_options-trailers :
    (co : CallOptions) (os : List CallOption)
    → (add_options co os).trailers ≡ co.trailers ++ trailer_addrs os
unfolding add_options add_option
add_options-trailers co [] = sym (append-nil co.trailers)
add_options-trailers co (trailer_addr p ∷ os) =
    add_options-trailers (add_option co (trailer_addr p)) os ∙ append_assoc co.trailers (p ∷ []) _
add_options-trailers co (o ∷ os) = add_options-trailers (add_option co o) os

add_options-peers :
    (co : CallOptions) (os : List CallOption)
    → (add_options co os).peers ≡ co.peers ++ peer_addrs os
unfolding add_options add_option
add_options-peers co [] = sym (append-nil co.peers)
add_options-peers co (peer_addr p ∷ os) =
    add_options-peers (add_option co (peer_addr p)) os ∙ append_assoc co.peers (p ∷ []) _
add_options-peers co (o ∷ os) = add_options-peers (add_option co o) os

add_options-creds :
    (co : CallOptions) (os : List CallOption) → (add_options co os).creds ≡ last_creds co.creds os
unfolding add_options add_option
add_options-creds co [] = refl
add_options-creds co (per_rpc_creds c ∷ os) = add_options-creds (add_option co (per_rpc_creds c)) os
add_options-creds co (o ∷ os) = add_options-creds (add_option co o) os

-- GetCallOptions keeps every address given, in order, and the last credentials given.
pub get_call_options-keeps :
    (os : List CallOption)
    → ((get_call_options os).headers ≡ header_addrs os)
      × ((get_call_options os).trailers ≡ trailer_addrs os)
      × ((get_call_options os).peers ≡ peer_addrs os)
      × ((get_call_options os).creds ≡ last_creds none os)
unfolding get_call_options
get_call_options-keeps os = (
  add_options-headers no_options os,
  add_options-trailers no_options os,
  add_options-peers no_options os,
  add_options-creds no_options os,
)

abbrev contains : List ℕ → ℕ → Bool
contains [] q = false
contains (p ∷ ps) q = p == q || contains ps q

assign_all_lem :
    {V : Type 0} (ps : List ℕ) (v : V) (f : ℕ → V) (q : ℕ)
    → assign_all ps v f q ≡ (if contains ps q then v else f q)
unfolding assign_all
assign_all_lem [] v f q = refl
assign_all_lem (p ∷ ps) v f q = ground (arith, assign_all_lem ps v (assign f p v) q)

-- SetHeaders and then SetTrailers leave the trailers in every variable of a Trailer option, the
-- headers in every other variable of a Header option, and all other variables as they were.
pub set_trailers-set_headers :
    (os : List CallOption) (hdr tlr : Md) (st : Store) (q : ℕ)
    → (set_trailers (get_call_options os) tlr (set_headers (get_call_options os) hdr st)).md_at q
      ≡ (if contains (trailer_addrs os) q
          then tlr
          else if contains (header_addrs os) q
          then hdr
          else st.md_at q)
unfolding set_trailers set_headers
set_trailers-set_headers os hdr tlr st q =
    let (hs, ts, _, _) = get_call_options-keeps os in
    rw (
      hs,
      ts,
      assign_all_lem (trailer_addrs os) tlr (assign_all (header_addrs os) hdr st.md_at) q,
      assign_all_lem (header_addrs os) hdr st.md_at q,
    )

module _ (api : Metadata) where
  -- Credentials that need a secure channel are never asked for metadata on an insecure one.
  pub creds_need_security :
      (ctx : Context) (co : CallOptions) (c : Creds) (uri : Bytes)
      → co.creds ≡ some c
      → c.require_transport_security ≡ true
      → apply_per_rpc_creds api ctx co uri false ≡ err (other "transport security is required")
  unfolding apply_per_rpc_creds
  creds_need_security ctx co c uri e h = rw (e, apply_per_rpc_creds) (rw h)

  -- Where the security of the channel is enough for the credentials and they give some metadata, it
  -- comes behind what the context already sends, key by key.
  pub creds_extend_outgoing :
      (ctx : Context) (co : CallOptions) (c : Creds) (uri : Bytes) (secure : Bool) (req : Md)
      (kv : Bytes × Bytes) (kvs : List (Bytes × Bytes)) (k : Bytes)
      → co.creds ≡ some c
      → (c.require_transport_security && not secure) ≡ false
      → c.get_request_metadata ctx uri ≡ ok (kv ∷ kvs)
      → ctx.outgoing ≡ some req
      → (out : Md) × (apply_per_rpc_creds api ctx co uri secure
          ≡ ok (record ctx { outgoing = some out }))
        × (values k out ≡ values k req ++ values k (api.new_md (kv ∷ kvs)))
  unfolding apply_per_rpc_creds
  creds_extend_outgoing ctx co c uri secure req kv kvs k e s g o = (
    api.join req (api.new_md (kv ∷ kvs)),
    ground arith,
    api.values-join req (api.new_md (kv ∷ kvs)) k,
  )
