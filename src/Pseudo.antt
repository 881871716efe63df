-- ===== src/Pseudo.antt =====
-- The pseudo headers of src/http/ngx_http_wasm_api.c: the two static tables, the getters, and the
-- search by name.
use Prim.Native.String.{String}
use Prim.Native.Char.{code}
use wasm_nginx_module.Prelude.{
  ℕ, Bool, false, ◌&&◌, List, [], ◌∷◌, Option, none, some, length, if◌then◌else◌, ◌==◌,
}
use wasm_nginx_module.Run.{M, fault, pure}
use wasm_nginx_module.Host.{Host, Request, Nginx}

-- The bytes of an ASCII literal.
abbrev pub bytes : String → List ℕ
bytes String.[] = []
bytes (String.◌∷◌ c s) = code c ∷ bytes s

-- PROXY_WASM_REQUEST_HEADER_* and PROXY_WASM_RESPONSE_HEADER_STATUS.
pub data Pseudo : Type 0 where
  scheme path method authority status : Pseudo

-- `ngx_http_wasm_pseudo_header_t`; the getter goes by the type.
pub record PseudoHeader : Type 0 where
  pub name : List ℕ
  pub ty : Pseudo

abbrev pub pseudo_header : String → Pseudo → PseudoHeader
pseudo_header n t = record { name = bytes n; ty = t }

-- `wasm_pseudo_req_header_static_table`.
abbrev pub req_table : List PseudoHeader
req_table =
    pseudo_header ":scheme" scheme
    ∷ pseudo_header ":path" path
    ∷ pseudo_header ":method" method
    ∷ pseudo_header ":authority" authority
    ∷ []

-- `wasm_pseudo_resp_header_static_table`.
abbrev pub resp_table : List PseudoHeader
resp_table = pseudo_header ":status" status ∷ []

abbrev pub starts_with_colon : List ℕ → Bool
starts_with_colon [] = false
starts_with_colon (c ∷ cs) = c == b':'

module _ (ng : Nginx) where
  -- `ngx_http_wasm_get_status`: the status as text, that of an error first.
  unfoldable pub get_status : Request → List ℕ
  get_status r = ng.sprintf (if r.err_status == 0 then r.status else r.err_status)

  -- The getters. `ngx_http_wasm_get_authority` goes through `headers_in.host`, which may be NULL:
  -- then there is no text, and to use the pointer is undefined.
  unfoldable pub getter : Pseudo → Request → Option (List ℕ)
  unfolding get_status
  getter path r = some r.unparsed_uri
  getter method r = some r.method_name
  getter scheme r = some (if r.ssl then bytes "https" else bytes "http")
  getter authority r = r.host
  getter status r = some (get_status r)

  -- The loop of `ngx_http_wasm_get_pseudo_header`: the first entry with the name.
  unfoldable pub find_pseudo : List PseudoHeader → List ℕ → Option Pseudo
  find_pseudo [] key = none
  find_pseudo (wh ∷ whs) key =
      if (length key == length wh.name) && ng.strncasecmp_eq key wh.name
      then some wh.ty
      else find_pseudo whs key

  -- `ngx_http_wasm_get_pseudo_header` for one of the tables: `none` is NULL, no pseudo header.
  unfoldable pub get_pseudo_header : List PseudoHeader → List ℕ → M Host (Option (List ℕ))
  unfolding find_pseudo getter
  get_pseudo_header whs key h =
      if starts_with_colon key
      then elim (find_pseudo whs key) [
        | none ↦ pure none h
        | some ty ↦ elim (getter ty h.r) [ none ↦ fault | some v ↦ pure (some v) h ]
      ]
      else pure none h
