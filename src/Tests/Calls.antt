-- ===== src/Tests/Calls.antt =====
-- The theorems on HTTP calls, at a call with one pseudo header and one plain one.
use wasm_nginx_module.Prelude.{
  ℕ, suc, ◌≤◌, ◌≡◌, refl, zero, List, [], ◌∷◌, arith, length, some, none, Option, inl, inr,
  Bool-cases, ◌==◌, if◌then◌else◌, ap, ◌∙◌, subst,
}
use wasm_nginx_module.Words.{add32, of_le32}
use wasm_nginx_module.Run.{ok, fault, Ends, IfOk}
use wasm_nginx_module.Memory.{Memory, load32, word, read}
use wasm_nginx_module.Map.Layout.{Header, IsMap}
use wasm_nginx_module.Vm.{ngx_ok, ngx_error}
use wasm_nginx_module.Host.{Host, Callout}
use wasm_nginx_module.Call.{CallOut, call_get, call_register, max_headers_count}
use wasm_nginx_module.Map.{init_iter}
use wasm_nginx_module.Call.{count_headers, on_map}
use wasm_nginx_module.Call.Loop.{call_get-Ends}
use wasm_nginx_module.Call.Count.{call_get-max_headers_count}
use wasm_nginx_module.SetHeader.Laws.{IsBytes}
use wasm_nginx_module.Call.Get.{HasMap, Got, taken, call_get-Got, register-get}
use wasm_nginx_module.Tests.Data.{zeros, host, nginx, module_ctx}

-- The map of `:path: /` and `a: b`, byte by byte.
abbrev pub headers : List Header
headers =
    record { key = 58 ∷ 112 ∷ 97 ∷ 116 ∷ 104 ∷ []; value = 47 ∷ [] }
    ∷ record { key = 97 ∷ []; value = 98 ∷ [] }
    ∷ []

abbrev pub nth : List ℕ → ℕ → ℕ
nth [] i = 0
nth (x ∷ xs) zero = x
nth (x ∷ xs) (suc i) = nth xs i

abbrev pub map_bytes : List ℕ
map_bytes =
    2 ∷ 0 ∷ 0 ∷ 0 ∷ 5 ∷ 0 ∷ 0 ∷ 0 ∷ 1 ∷ 0 ∷ 0 ∷ 0 ∷ 1 ∷ 0 ∷ 0 ∷ 0 ∷ 1 ∷ 0 ∷ 0 ∷ 0 ∷ 58 ∷ 112 ∷ 97
    ∷ 116 ∷ 104 ∷ 0 ∷ 47 ∷ 0 ∷ 97 ∷ 0 ∷ 98 ∷ 0 ∷ []

abbrev map_block : Memory
map_block = record { size = 32; byte = nth map_bytes }

abbrev callout : Callout
callout = record { timeout_ms = 500; up = 104 ∷ []; map_data = some map_block; body = none }

entry_holds : IsMap map_block 0 headers
unfolding word read of_le32
entry_holds = record {
  count = refl;
  entries = (
    record {
      key_len = refl;
      val_len = refl;
      key = refl;
      key_nul = refl;
      val = refl;
      val_nul = refl;
    },
    (
      record {
        key_len = refl;
        val_len = refl;
        key = refl;
        key_nul = refl;
        val = refl;
        val_nul = refl;
      },
      tt,
    ),
  );
}

has_map : HasMap callout headers
has_map = record {
  mem = map_block;
  given = refl;
  is_map = entry_holds;
  inside = omega arith;
  short = omega arith;
  small = omega arith;
}

abbrev calling : Host
calling = record host { ctx = record module_ctx { callout = some callout } }

abbrev pub before : CallOut
before = record {
  method = [];
  scheme = [];
  host = [];
  path = [];
  headers = [];
  body = [];
  timeout = 0;
}

call_get-Got_example :
    (o : CallOut) × (call_get nginx before calling ≡ ok o (taken calling))
    × Got nginx callout headers before o
call_get-Got_example = call_get-Got nginx calling callout headers before refl has_map

register-get_example :
    (h' : Host) × (o : CallOut) × (call_register nginx (104 ∷ []) (some map_block) none 500 host
      ≡ ok (ngx_ok, 7) h')
    × (h'.cur_callout_id ≡ add32 7 1)
    × ((up' : List ℕ) (map' : Option Memory) (body' : Option (List ℕ)) (timeout' : ℕ)
        → call_register nginx up' map' body' timeout' h' ≡ ok (ngx_error, 0) h')
    × (call_get nginx before h' ≡ ok o (taken h'))
    × Got nginx callout headers before o
    × (call_get nginx before (taken h') ≡ fault)
register-get_example =
    register-get nginx host (104 ∷ []) map_block headers none 500 before refl refl (omega arith)
      has_map

-- A map that announces three headers, and holds none.
abbrev announced : Memory
announced = record zeros { byte = λ a. if a == 0 then 3 else 0 }

abbrev announced_callout : Callout
announced_callout = record callout { map_data = some announced }

abbrev announcing : Host
announcing = record host { ctx = record module_ctx { callout = some announced_callout } }

announced-IsBytes : IsBytes announced
announced-IsBytes x = elim (Bool-cases (x == 0)) [
  | inl e ↦ rw e (omega arith)
  | inr e ↦ rw e (omega arith)
]

announced_is :
    (c : Callout) (m : Memory)
    → announcing.ctx.callout ≡ some c
    → c.map_data ≡ some m
    → announced ≡ m
announced_is c m called given =
    let same : announced_callout ≡ c = cc in
    let maps = ap (λ (x : Callout). x.map_data) same ∙ given in cc

call_get-Ends_example : Ends (call_get nginx before announcing)
call_get-Ends_example =
    call_get-Ends nginx announcing before
      λ c m called given. subst IsBytes (announced_is c m called given) announced-IsBytes

call_get-max_headers_count_example :
    Ends (call_get nginx before announcing)
    × IfOk (λ (o : CallOut) (h2 : Host). length o.headers ≤ 3) (call_get nginx before announcing)
unfolding max_headers_count count_headers on_map init_iter load32 word of_le32
call_get-max_headers_count_example =
    call_get-max_headers_count nginx announcing announcing 3 before
      (λ c m called given. subst IsBytes (announced_is c m called given) announced-IsBytes) refl
