-- ===== src/Call/Laws.antt =====
-- What `ngx_http_wasm_call_get` of src/http/ngx_http_wasm_call.c hands to the Lua code, and how it
-- goes together with `ngx_http_wasm_call_register`.
use wasm_nginx_module.Prelude.{
  ℕ, ◌≤◌, ◌≡◌, ◌∙◌, refl, sym, ap, Bool, true, false, List, [], ◌∷◌, ◌++◌, Option, none, some,
  arith, length, length-append, ◌==◌, if◌then◌else◌,
}
use mathlib.Core.List.{append_assoc, append-nil}
use wasm_nginx_module.Map.Layout.{Header}
use wasm_nginx_module.Host.{Nginx}
use wasm_nginx_module.Pseudo.{
  Pseudo, scheme, path, method, authority, status, find_pseudo, bytes, starts_with_colon,
}
use wasm_nginx_module.Call.{CallOut, call_table, take_header}
use wasm_nginx_module.Call.Loop.{take_headers}

module _ (ng : Nginx) where
  -- The type of the pseudo header that an entry is, if it is one of the table's.
  pub kind : Header → Option Pseudo
  kind h = if starts_with_colon h.key then find_pseudo ng call_table h.key else none

  abbrev is_kind : Pseudo → Option Pseudo → Bool
  is_kind path (some path) = true
  is_kind method (some method) = true
  is_kind scheme (some scheme) = true
  is_kind _ _ = false

  -- The headers that an entry stands for: `:authority` is sent as `host`, the other three pseudo
  -- headers and an entry with an empty key are not sent, and any other entry is sent as it is.
  pub sent : Header → List Header
  unfolding kind
  sent h = if length h.key == 0 then [] else elim (kind h) [
    | none ↦ h ∷ []
    | some path ↦ []
    | some method ↦ []
    | some scheme ↦ []
    | some authority ↦ record { key = bytes "host"; value = h.value } ∷ []
    | some status ↦ h ∷ []
  ]

  pub sent_all : List Header → List Header
  unfolding sent
  sent_all [] = []
  sent_all (h ∷ hs) = sent h ++ sent_all hs

  -- The value of the last pseudo header of a type, or what the variable held before.
  pub latest : Pseudo → List Header → List ℕ → List ℕ
  unfolding kind
  latest ty [] old = old
  latest ty (h ∷ hs) old = latest ty hs (if is_kind ty (kind h) then h.value else old)

  -- `o'` is `o` with the entries `hs` sorted into it.
  pub record Sorted (hs : List Header) (o o' : CallOut) : Type 0 where
    pub headers : o'.headers ≡ o.headers ++ sent_all hs
    pub path : o'.path ≡ latest path hs o.path
    pub method : o'.method ≡ latest method hs o.method
    pub scheme : o'.scheme ≡ latest scheme hs o.scheme
    pub host : o'.host ≡ o.host
    pub timeout : o'.timeout ≡ o.timeout
    pub body : o'.body ≡ o.body

  one_header :
      (h : Header) (o : CallOut)
      → let o' : CallOut = if length h.key == 0 then o else take_header ng h o in
        (o'.headers ≡ o.headers ++ sent h)
        × (o'.path ≡ (if is_kind path (kind h) then h.value else o.path))
        × (o'.method ≡ (if is_kind method (kind h) then h.value else o.method))
        × (o'.scheme ≡ (if is_kind scheme (kind h) then h.value else o.scheme))
        × (o'.host ≡ o.host)
        × (o'.timeout ≡ o.timeout)
        × (o'.body ≡ o.body)
  unfolding sent take_header
  one_header h o = ground (arith, append-nil o.headers)

  pub take_headers-Sorted : (hs : List Header) (o : CallOut) → Sorted hs o (take_headers ng hs o)
  unfolding take_headers sent_all latest
  take_headers-Sorted [] o = record {
    headers = sym (append-nil o.headers);
    path = refl;
    method = refl;
    scheme = refl;
    host = refl;
    timeout = refl;
    body = refl;
  }
  take_headers-Sorted (h ∷ hs) o =
      let o1 : CallOut = if length h.key == 0 then o else take_header ng h o in
      let one = one_header h o in
      let rest = take_headers-Sorted hs o1 in
      record {
        headers =
            rest.headers
            ∙ ap (λ x. x ++ sent_all hs) one.0
            ∙ append_assoc o.headers (sent h) (sent_all hs);
        path = rest.path ∙ ap (latest path hs) one.1;
        method = rest.method ∙ ap (latest method hs) one.2;
        scheme = rest.scheme ∙ ap (latest scheme hs) one.3;
        host = rest.host ∙ one.4;
        timeout = rest.timeout ∙ one.5;
        body = rest.body ∙ one.6;
      }

  length-sent : (h : Header) → length (sent h) ≤ 1
  unfolding sent
  length-sent h = ground arith

  pub length-sent_all : (hs : List Header) → length (sent_all hs) ≤ length hs
  unfolding sent_all
  length-sent_all [] = omega arith
  length-sent_all (h ∷ hs) =
      omega (arith, length-append (sent h) (sent_all hs), length-sent h, length-sent_all hs)
