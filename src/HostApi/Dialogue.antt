-- ===== src/HostApi/Dialogue.antt =====
-- A plugin and the host by turns: the plugin runs and changes its memory, and calls host functions of
-- src/http/ngx_http_wasm_api.c through the table of src/http/ngx_http_wasm_api_wasmtime.h.
use wasm_nginx_module.Prelude.{
  ℕ, ◌≡◌, refl, ◌∙◌, ap, subst, Bool, true, false, List, Option, some, get_elem?, map, All,
}
use wasm_nginx_module.Run.{Run, M, ok, fault, out_of_fuel, and_then, IfOk}
use wasm_nginx_module.Memory.{Memory}
use wasm_nginx_module.Vm.{Engine}
use wasm_nginx_module.Host.{Host, Nginx, ProxyResult, with_mem}
use wasm_nginx_module.LocalResponse.{send_local_response, send_http_response}
use wasm_nginx_module.SetHeader.{
  put_header_map_value, remove_header_map_value, replace_header_map_value, add_header_map_value,
}
use wasm_nginx_module.SetHeader.Laws.{KeepsNames, IsClean, IsClean-same, IsBytes, Good}
use wasm_nginx_module.SetHeader.Values.{header_map_value-Good}
use wasm_nginx_module.LocalResponse.Clean.{send_local_response-Good}
use wasm_nginx_module.HostApi.{Api}
use wasm_nginx_module.HostApi.Declared.{declared}
use wasm_nginx_module.HostApi.Wasmtime.{Val, kind, host_apis, host_api_func}
use wasm_nginx_module.HostApi.Agreement.{answer}
use wasm_nginx_module.HostApi.Functions.{host_functions}
use wasm_nginx_module.HostApi.Frames.{Frames, IfEnds, IgnoresPlugin}
use wasm_nginx_module.HostApi.Writers.{IgnoresLog, IgnoresCall, set_property-Frames}
use wasm_nginx_module.HostApi.Loops.{current}
use wasm_nginx_module.HostApi.Termination.{host_apis-IfEnds}
use wasm_nginx_module.HostApi.Effects.{
  Every, Every-apply, All-get_elem?, row_of, params-kinds, rows-Every, Every-map,
}

-- One turn: the plugin leaves other bytes in its memory, or calls a row of the table, which returns.
-- The engine passes arguments of the types that it was told.
pub data Turn (e : Engine) (ng : Nginx) : Host → Host → Type 0 where
  plugin_runs : {h : Host} (m : Memory) → Turn e ng h (with_mem h m)
  called :
      {h h' : Host} {results : List Val} (i : ℕ) (api : Api Val) (args : List Val)
      → get_elem? (host_apis (host_functions e ng)) i ≡ some api
      → map kind args ≡ (host_api_func api).params
      → IsBytes h.mem
      → api.cb args h ≡ ok results h'
      → Turn e ng h h'

-- Any number of turns.
pub data Dialogue (e : Engine) (ng : Nginx) : Host → Host → Type 0 where
  begun : {h : Host} → Dialogue e ng h h
  turned : {h h2 : Host} (h' : Host) → Dialogue e ng h h' → Turn e ng h' h2 → Dialogue e ng h h2

-- The path and the method.
abbrev names : Host → List ℕ × List ℕ
names h = (h.r.uri, h.r.method_name)

names_plugin : IgnoresPlugin names
names_plugin = record { ignores = λ h p. refl }

names_log : IgnoresLog names
names_log = record { ignores = λ h l. refl }

names_calls : IgnoresCall names
names_calls = record { ignores = λ h c n. refl }

-- A host function after which a clean request is clean.
record Clean (f : M Host ProxyResult) : Type 0 where
  cleans : (h : Host) → Good h → IfOk (λ _ h'. IsClean h'.r) (f h)

answer-IfOk :
    (Q : Host → Type 0) (r : Run Host ProxyResult)
    → IfOk (λ _. Q) r
    → IfOk (λ _. Q) (and_then r answer)
answer-IfOk Q (ok a h) q = q
answer-IfOk Q fault q = tt
answer-IfOk Q out_of_fuel q = tt

names-IfOk :
    {A : Type 0} (h : Host) (r : Run Host A)
    → IsClean h.r
    → IfEnds (λ _ h'. names h' ≡ names h) r
    → IfOk (λ _ h'. IsClean h'.r) r
names-IfOk h (ok a h') c e =
    IsClean-same (ap (λ (n : List ℕ × List ℕ). n.0) e) (ap (λ (n : List ℕ × List ℕ). n.1) e) c
names-IfOk h fault c e = tt
names-IfOk h out_of_fuel c e = tt

Frames-Clean : {f : M Host ProxyResult} → Frames names f → Clean f
Frames-Clean {f} ff = record { cleans = λ h g. names-IfOk h (f h) g.clean (ff.keeps h) }

Good-IfOk : {A : Type 0} (r : Run Host A) → IfOk (λ _. Good) r → IfOk (λ _ h'. IsClean h'.r) r
Good-IfOk (ok a h) g = g.clean
Good-IfOk fault g = tt
Good-IfOk out_of_fuel g = tt

module _ (e : Engine) (ng : Nginx) where
  Turn-current : (h h' : Host) → Turn e ng h h' → current h' ≡ current h
  Turn-current h h' (plugin_runs m) = refl
  Turn-current h h' (called i api args at k bytes returned) =
      subst (IfEnds (λ _ h'. current h' ≡ current h)) returned
        (host_apis-IfEnds e ng i api args h at k bytes)

  pub Dialogue-current : (h h' : Host) → Dialogue e ng h h' → current h' ≡ current h
  Dialogue-current h h' begun = refl
  Dialogue-current h h' (turned h1 s t) = Turn-current h1 h' t ∙ Dialogue-current h h1 s

module _ (e : Engine) (ng : Nginx) (keeps : KeepsNames ng) where
  names_kept :
      (h : Host) (key : List ℕ) (value : Option (List ℕ))
      → names (record h { r = (ng.set_variable h.r key value).2 }) ≡ names h
  names_kept h key value = let kept = keeps.set_variable h.r key value in λ i. (kept.0 i, kept.1 i)

  local_Clean :
      (res_code body body_size headers headers_size : ℕ)
      → Clean (send_local_response ng res_code body body_size headers headers_size)
  local_Clean res_code body body_size headers headers_size = record {
    cleans = λ h g.
        Good-IfOk _
          (send_local_response-Good ng keeps res_code body body_size headers headers_size h g);
  }

  put_Clean :
      (override : Bool) (type key_data key_size val_data size : ℕ)
      → Clean (put_header_map_value ng override type key_data key_size val_data size)
  put_Clean override type key_data key_size val_data size = record {
    cleans = λ h g.
        Good-IfOk _
          (header_map_value-Good ng keeps override type key_data key_size val_data size h g).0;
  }

  remove_Clean :
      (type key_data key_size : ℕ) → Clean (remove_header_map_value ng type key_data key_size)
  remove_Clean type key_data key_size = record {
    cleans =
        λ h g. Good-IfOk _ (header_map_value-Good ng keeps true type key_data key_size 0 0 h g).1;
  }

  -- Every host function of the table.
  rows-Clean : All (λ p. Every Clean p.shape p.function) (declared (host_functions e ng))
  unfolding host_functions send_http_response replace_header_map_value add_header_map_value
  rows-Clean =
      rows-Every names_plugin names_log names_calls e ng _
        (λ p. Every-map (Frames names) Clean p.shape p.function λ f. Frames-Clean)
        (λ a b c d. Frames-Clean (set_property-Frames names_plugin ng names_kept a b c d))
        (λ a b c d e1 f g h. local_Clean a d e1 f g) (λ a b c d e1 f g h. local_Clean a d e1 f g)
        remove_Clean (put_Clean true) (put_Clean false)

  Turn-IsClean : (h h' : Host) → Turn e ng h h' → IsClean h.r → IsClean h'.r
  Turn-IsClean h h' (plugin_runs m) c = c
  Turn-IsClean h h' (called i api args at k bytes returned) c =
      let d = host_functions e ng in
      let (p, at', row) = row_of d i api at in
      let k' = params-kinds p api args row k in
      let every = All-get_elem? _ (declared d) i p rows-Clean at' in
      let good : Good h = record { clean = c; memory = bytes } in
      let done =
        answer-IfOk (λ h'. IsClean h'.r) _
          ((Every-apply Clean p.shape p.function args every k').cleans h good) in
      subst (IfOk (λ _ h'. IsClean h'.r)) returned (rw (row.runs args h k') done)

  Dialogue-Clean : (h h' : Host) → Dialogue e ng h h' → IsClean h.r → IsClean h'.r
  Dialogue-Clean h h' begun c = c
  Dialogue-Clean h h' (turned h1 s t) c = Turn-IsClean h1 h' t (Dialogue-Clean h h1 s c)

  -- However often a plugin and the host take turns, in whatever order, whatever the plugin leaves in
  -- its memory, and whichever of the 41 host functions it calls with whatever arguments of their types:
  -- the current state is the one in which the plugin was called, and the path of a request that began
  -- clean holds no control character but the tab, and its method letters only. The functions of nginx
  -- and lua-nginx-module are taken to leave both names alone, and the plugin's memory to hold bytes.
  pub Dialogue-IsClean :
      (h h' : Host) → Dialogue e ng h h' → IsClean h.r → IsClean h'.r × (current h' ≡ current h)
  Dialogue-IsClean h h' s c = (Dialogue-Clean h h' s c, Dialogue-current e ng h h' s)
