-- ===== src/Handlers/Forwarding/Upstream.antt =====
-- The headers of the upstream request, key by key.
use faas_drl.Base.{
  ◌≡◌, refl, ap, ◌∙◌, Bool, false, ◌&&◌, ◌||◌, not, Option, none, some, List, [], ◌∷◌, arith,
  if◌then◌else◌,
}
use faas_drl.Base.Bytes.{Bytes, eq_bytes}
use faas_drl.Base.Dict.{lookup, insert, lookup-insert, lookup-insert_if}
use faas_drl.Http.Headers.{
  Header, canonical_key, get_header, del_header, first_value, lookup-del_header,
}
use faas_drl.Handlers.Forwarding.{
  copy_headers, delete_headers, hop_headers, is_empty, forwarded_host, forwarded_for,
  upstream_headers,
}

-- `j` is the canonical form of one of the keys.
abbrev pub is_key : Bytes → List Bytes → Bool
is_key j [] = false
is_key j (k ∷ ks) = eq_bytes (canonical_key k) j || is_key j ks

pub lookup-copy_headers :
    (j : Bytes) (source : Header) → lookup j (copy_headers [] source) ≡ lookup j source
unfolding copy_headers lookup
lookup-copy_headers j [] = refl
lookup-copy_headers j ((k, v) ∷ source) =
    lookup-insert k j v (copy_headers [] source) ∙ rw (lookup-copy_headers j source)

pub lookup-delete_headers :
    (j : Bytes) (ks : List Bytes) (h : Header)
    → lookup j (delete_headers h ks) ≡ (if is_key j ks then none else lookup j h)
unfolding delete_headers
lookup-delete_headers j [] h = refl
lookup-delete_headers j (k ∷ ks) h =
    ground (arith, lookup-delete_headers j ks (del_header k h), lookup-del_header k j h)

-- What the upstream sees under a key: the address and the host of the request under the two
-- X-Forwarded keys, where the request says nothing there; nothing under a hop-by-hop header; else
-- what was sent.
abbrev pub seen : Header → Bytes → Bytes → Bytes → Option (List Bytes)
seen source host remote_addr j =
    if eq_bytes forwarded_for j && is_empty (first_value (lookup forwarded_for source))
    then some (remote_addr ∷ [])
    else (if eq_bytes forwarded_host j
          && (not (is_empty host) && is_empty (first_value (lookup forwarded_host source)))
        then some (host ∷ [])
        else (if is_key j hop_headers then none else lookup j source))

module _ (source : Header) where
  abbrev copied : Header
  copied = delete_headers (copy_headers [] source) hop_headers

  lookup-copied :
      (j : Bytes) → lookup j copied ≡ (if is_key j hop_headers then none else lookup j source)
  lookup-copied j =
      lookup-delete_headers j hop_headers (copy_headers [] source)
      ∙ rw (lookup-copy_headers j source)

  get_host : get_header forwarded_host copied ≡ first_value (lookup forwarded_host source)
  unfolding get_header canonical_key
  get_host = ap first_value (lookup-copied forwarded_host)

  get_for : get_header forwarded_for copied ≡ first_value (lookup forwarded_for source)
  unfolding get_header canonical_key
  get_for = ap first_value (lookup-copied forwarded_for)

module _ (source : Header) (host remote_addr : Bytes) where
  abbrev hosted : Header
  hosted =
      if not (is_empty host) && is_empty (get_header forwarded_host (copied source))
      then insert forwarded_host (host ∷ []) (copied source)
      else (copied source)

  lookup-hosted :
      (j : Bytes)
      → lookup j hosted ≡ (
          if eq_bytes forwarded_host j
            && (not (is_empty host) && is_empty (first_value (lookup forwarded_host source)))
          then some (host ∷ [])
          else lookup j (copied source))
  lookup-hosted j =
      rw (get_host source) (lookup-insert_if _ forwarded_host j (host ∷ []) (copied source))

  get_for_hosted : get_header forwarded_for hosted ≡ first_value (lookup forwarded_for source)
  unfolding get_header canonical_key
  get_for_hosted =
      ap first_value (lookup-hosted forwarded_for)
      ∙ ap first_value (lookup-copied source forwarded_for)

-- Under every key the headers of the upstream request hold the address of the client or the host
-- of the request, for X-Forwarded-For and X-Forwarded-Host where the request says nothing there;
-- nothing for a hop-by-hop header; and else what the request holds under the key.
pub lookup-upstream_headers :
    (source : Header) (host remote_addr j : Bytes)
    → lookup j (upstream_headers source host remote_addr) ≡ seen source host remote_addr j
unfolding upstream_headers
lookup-upstream_headers source host remote_addr j = rw (get_for_hosted source host remote_addr) (
    lookup-insert_if _ forwarded_for j (remote_addr ∷ []) (hosted source host remote_addr)
    ∙ rw (lookup-hosted source host remote_addr j, lookup-copied source j) refl)
