-- ===== src/SetHeader/Laws.antt =====
-- What `ngx_http_wasm_set_req_header` and `ngx_http_wasm_set_resp_header` of
-- src/http/ngx_http_wasm_api.c can do to the path and the method of a request.
use wasm_nginx_module.Prelude.{
  ℕ, zero, suc, ◌<◌, ◌≡◌, sym, subst, inl, inr, Bool, true, false, List, Option, none, some, length,
  ◌&&◌, ◌==◌, All, Bool-cases, Option-cases,
}
use wasm_nginx_module.Run.{M, IfOk}
use wasm_nginx_module.Memory.{Memory, fits, read, copy_out, get_memory}
use wasm_nginx_module.Host.{Host, Nginx, Request, ProxyResult, on_mem, must_get_memory}
use wasm_nginx_module.State.{must_get_req, get_req}
use wasm_nginx_module.Pseudo.{Pseudo, path, find_pseudo, bytes, starts_with_colon}
use wasm_nginx_module.Chars.{is_letter}
use wasm_nginx_module.Chars.Laws.{
  is_control, check_unsafe_uri_bytes-is_control, check_unsafe_method-is_letter,
}
use wasm_nginx_module.SetHeader.{
  settable, palloc, with_uri, set_path, set_method, set_plain_header, set_by_type, set_req_header,
  set_resp_header, value_of,
}

-- The path holds no control character but the tab, and the method letters only.
pub record IsClean (r : Request) : Type 0 where
  pub uri : All (λ c. is_control c ≡ false) r.uri
  pub method_name : All (λ c. is_letter c ≡ true) r.method_name

-- The functions of nginx and lua-nginx-module on headers, the status, the extension and variables
-- leave the path and the method as they are.
pub record KeepsNames (ng : Nginx) : Type 0 where
  pub set_exten :
      (r : Request)
      → ((ng.set_exten r).uri ≡ r.uri) × ((ng.set_exten r).method_name ≡ r.method_name)
  pub set_req_header :
      (r : Request) (k : List ℕ) (v : Option (List ℕ)) (o : Bool)
      → ((ng.set_req_header r k v o).1.uri ≡ r.uri)
        × ((ng.set_req_header r k v o).1.method_name ≡ r.method_name)
  pub set_resp_header :
      (r : Request) (k : List ℕ) (n : Bool) (v : Option (List ℕ)) (o : Bool)
      → ((ng.set_resp_header r k n v o).1.uri ≡ r.uri)
        × ((ng.set_resp_header r k n v o).1.method_name ≡ r.method_name)
  pub set_variable :
      (r : Request) (name : List ℕ) (value : Option (List ℕ))
      → ((ng.set_variable r name value).2.uri ≡ r.uri)
        × ((ng.set_variable r name value).2.method_name ≡ r.method_name)
  pub set_resp_status :
      (r : Request) (code : ℕ)
      → ((ng.set_resp_status r code).1.uri ≡ r.uri)
        × ((ng.set_resp_status r code).1.method_name ≡ r.method_name)

-- Every byte of the plugin's memory is one.
abbrev pub IsBytes : Memory → Type 0
IsBytes m = (x : ℕ) → m.byte x < 256

abbrev pub Bytes : List ℕ → Type 0
Bytes = All (λ c. c < 256)

read-Bytes : (m : Memory) (a n : ℕ) → IsBytes m → Bytes (read m a n)
unfolding read
read-Bytes m a zero b = tt
read-Bytes m a (suc n) b = (b a, read-Bytes m (suc a) n b)

-- The host's request is clean, and its plugin's memory holds bytes.
pub record Good (h : Host) : Type 0 where
  pub clean : IsClean h.r
  pub memory : IsBytes h.mem

pub IsClean-same :
    {r r' : Request} → r'.uri ≡ r.uri → r'.method_name ≡ r.method_name → IsClean r → IsClean r'
IsClean-same u m c = record {
  uri = subst (All (λ c. is_control c ≡ false)) (sym u) c.uri;
  method_name = subst (All (λ c. is_letter c ≡ true)) (sym m) c.method_name;
}

pub must_get_req-Good :
    (rest : M Host ProxyResult) (h : Host)
    → Good h
    → IfOk (λ _. Good) (rest h)
    → IfOk (λ _. Good) (must_get_req rest h)
unfolding must_get_req
must_get_req-Good rest h g k = elim (Bool-cases (get_req h.cur_state)) [
  | inl e ↦ rw (e, IfOk, must_get_req) k
  | inr e ↦ rw (e, IfOk, must_get_req) g
]

pub must_get_memory-Good :
    (addr size : ℕ) (rest : ℕ → M Host ProxyResult) (h : Host)
    → Good h
    → ((p : ℕ) → IfOk (λ _. Good) (rest p h))
    → IfOk (λ _. Good) (must_get_memory addr size rest h)
unfolding must_get_memory
must_get_memory-Good addr size rest h g k = elim (Option-cases (get_memory h.mem addr size)) [
  | inl e ↦ rw (e, IfOk) g
  | inr (p, e) ↦ rw (e, IfOk) (k p)
]

pub copy_out-Good :
    (p n : ℕ) (h : Host) → Good h → IfOk (λ bs h'. Bytes bs × Good h') (on_mem (copy_out p n) h)
unfolding on_mem copy_out
copy_out-Good p n h g = elim (Bool-cases (fits h.mem p n)) [
  | inl e ↦ rw (e, IfOk) (read-Bytes h.mem p n g.memory, g)
  | inr e ↦ rw (e, IfOk) tt
]

module _ (ng : Nginx) (keeps : KeepsNames ng) where
  set_path-Good :
      (val : List ℕ) (h : Host) → Bytes val → Good h → IfOk (λ _. Good) (set_path ng val h)
  unfolding set_path palloc with_uri
  set_path-Good val h bv g = elim (check_unsafe_uri_bytes-is_control val bv) [
    | inr (c, e, first) ↦ rw (e, IfOk, set_path) g
    | inl (e, all) ↦
        rw (e, IfOk, set_path)
          (elim (Bool-cases (ng.palloc h.tick (length val))) [
            | inr full ↦ rw full (record { clean = g.clean; memory = g.memory })
            | inl room ↦
                let kept =
                  keeps.set_exten
                    (record (h.r) { uri = val; internal = true; valid_unparsed_uri = false }) in
                rw room (record {
                  clean = record {
                    uri = subst (All (λ c. is_control c ≡ false)) (sym kept.0) all;
                    method_name =
                        subst (All (λ c. is_letter c ≡ true)) (sym kept.1) g.clean.method_name;
                  };
                  memory = g.memory;
                })
          ])
  ]

  set_method-Good : (val : List ℕ) (h : Host) → Good h → IfOk (λ _. Good) (set_method ng val h)
  unfolding set_method palloc
  set_method-Good val h g = elim (check_unsafe_method-is_letter val) [
    | inr (c, e, first) ↦ rw (e, IfOk, set_method) g
    | inl (e, all) ↦
        rw (e, IfOk, set_method)
          (elim (Bool-cases (ng.palloc h.tick (length val))) [
            | inr full ↦ rw full (record { clean = g.clean; memory = g.memory })
            | inl room ↦ rw room (record {
              clean = record { uri = g.clean.uri; method_name = all };
              memory = g.memory;
            })
          ])
  ]

  set_plain_header-Good :
      (key : List ℕ) (val : Option (List ℕ)) (override : Bool) (h : Host)
      → Good h
      → IfOk (λ _. Good) (set_plain_header ng key val override h)
  unfolding set_plain_header
  set_plain_header-Good key val override h g =
      let kept = keeps.set_req_header h.r key val override in
      record { clean = IsClean-same kept.0 kept.1 g.clean; memory = g.memory }

  set_by_type-Good :
      (ty : Option Pseudo) (key : List ℕ) (val : Option (List ℕ)) (override : Bool) (h : Host)
      → Bytes (value_of val)
      → Good h
      → IfOk (λ _. Good) (set_by_type ng ty key val override h)
  unfolding set_by_type
  set_by_type-Good none key val override h bv g = set_plain_header-Good key val override h g
  set_by_type-Good (some path) key val override h bv g = set_path-Good (value_of val) h bv g
  set_by_type-Good (some _) key val override h bv g = set_method-Good (value_of val) h g

  -- Whatever `ngx_http_wasm_set_req_header` is given, the request stays clean.
  pub set_req_header-Good :
      (key : List ℕ) (val : Option (List ℕ)) (override : Bool) (h : Host)
      → Bytes (value_of val)
      → Good h
      → IfOk (λ _. Good) (set_req_header ng key val override h)
  unfolding set_req_header
  set_req_header-Good key val override h bv g = elim (Bool-cases (starts_with_colon key)) [
    | inr plain ↦ rw plain (set_by_type-Good none key val override h bv g)
    | inl colon ↦ elim (Bool-cases (length (value_of val) == 0)) [
      | inl empty ↦ rw (colon, empty) g
      | inr full ↦
          rw (colon, full) (set_by_type-Good (find_pseudo ng settable key) key val override h bv g)
    ]
  ]

  pub set_resp_header-Good :
      (key : List ℕ) (is_nil : Bool) (val : Option (List ℕ)) (override : Bool) (h : Host)
      → Good h
      → IfOk (λ _. Good) (set_resp_header ng key is_nil val override h)
  unfolding set_resp_header
  set_resp_header-Good key is_nil val override h g =
      let kept = keeps.set_resp_header h.r key is_nil val override in
      elim (Bool-cases (length key == 7 && ng.strncasecmp_eq key (bytes ":status"))) [
        | inr other ↦
            rw (other, IfOk)
              (record { clean = IsClean-same kept.0 kept.1 g.clean; memory = g.memory })
        | inl is_status ↦ elim (Bool-cases is_nil) [
          | inl e ↦ rw (is_status, e, IfOk) g
          | inr e ↦ elim (Option-cases (ng.atoi (value_of val))) [
            | inl bad ↦ rw (is_status, e, bad, IfOk) g
            | inr (code, good) ↦
                let kept' = keeps.set_resp_status h.r code in
                rw (is_status, e, good, IfOk)
                  (record { clean = IsClean-same kept'.0 kept'.1 g.clean; memory = g.memory })
          ]
        ]
      ]
