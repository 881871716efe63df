-- ===== src/HostApi/Endings.antt =====
-- Which C functions on a plugin's memory come to an end: those of src/proxy_wasm/proxy_wasm_map.c, the
-- loops of src/http/ngx_http_wasm_api.c that write a map, and calls into the plugin.
use Prim.Native.String.{String}
use wasm_nginx_module.Prelude.{
  ℕ, inl, inr, Bool, true, false, List, [], ◌∷◌, Option, none, some, Bool-cases, if◌then◌else◌,
  length, ◌==◌,
}
use wasm_nginx_module.Words.{le32}
use wasm_nginx_module.Run.{M, ok, Ends, Ends-and_then, ◌>>=◌}
use wasm_nginx_module.Memory.{fits, copy_in, copy_out, store32, load32}
use wasm_nginx_module.Map.{Iter, Entry, Slot, init_map, init_iter, reserve, reserve_literal}
use wasm_nginx_module.Map.Layout.{Header}
use wasm_nginx_module.Map.Build.{put_header, put_headers}
use wasm_nginx_module.Map.Walk.{entry_texts}
use wasm_nginx_module.Vm.{Engine, Plugin, param_num, va_args, invoke_params, call, ngx_error}
use wasm_nginx_module.Host.{Nginx, Request, TableElt}
use wasm_nginx_module.HttpCall.{copy_block}
use wasm_nginx_module.Pairs.Response.{
  put_literal, put_text, put_chunked, put_part, put_resp_headers,
}

-- A function that returns or is undefined, and does not run out of fuel.
pub record Ending {S A : Type 0} (f : M S A) : Type 0 where
  pub ends : (s : S) → Ends (f s)

module _ {S : Type 0} where
  pub bind-Ending :
      {A B : Type 0} (f : M S A) (k : A → M S B)
      → Ending f
      → ((a : A) → Ending (k a))
      → Ending (f >>= k)
  bind-Ending f k ef ek = record {
    ends = λ s. Ends-and_then (f s) k (ef.ends s) λ a s'. (ek a).ends s';
  }

  pub ok-Ending : {A : Type 0} (a : A) → Ending {S = S} (ok a)
  ok-Ending a = record { ends = λ s. tt }

  pub if_Ending :
      {A : Type 0} (b : Bool) (f g : M S A) → Ending f → Ending g → Ending (if b then f else g)
  if_Ending true f g ef eg = ef
  if_Ending false f g ef eg = eg

pub copy_in-Ending : (p : ℕ) (bs : List ℕ) → Ending (copy_in p bs)
unfolding copy_in
copy_in-Ending p bs = record {
  ends = λ m. elim (Bool-cases (fits m p (length bs))) [ inl e ↦ rw e tt | inr e ↦ rw e tt ];
}

pub copy_out-Ending : (p n : ℕ) → Ending (copy_out p n)
unfolding copy_out
copy_out-Ending p n = record {
  ends = λ m. elim (Bool-cases (fits m p n)) [ inl e ↦ rw e tt | inr e ↦ rw e tt ];
}

pub copy_block-Ending : (p n : ℕ) → Ending (copy_block p n)
unfolding copy_block
copy_block-Ending p n = record {
  ends = λ m. elim (Bool-cases (fits m p n)) [ inl e ↦ rw e tt | inr e ↦ rw e tt ];
}

pub load32-Ending : (p : ℕ) → Ending (load32 p)
unfolding load32
load32-Ending p = record {
  ends = λ m. elim (Bool-cases (fits m p 4)) [ inl e ↦ rw e tt | inr e ↦ rw e tt ];
}

pub store32-Ending : (p w : ℕ) → Ending (store32 p w)
unfolding store32
store32-Ending p w = copy_in-Ending p (le32 w)

pub ruleset memory_rules = (
  bind-Ending, ok-Ending, if_Ending, copy_in-Ending, copy_out-Ending, load32-Ending, store32-Ending,
)

pub init_map-Ending : (p n : ℕ) → Ending (init_map p n)
unfolding init_map
init_map-Ending p n = store32-Ending p n

pub init_iter-Ending : (p : ℕ) → Ending (init_iter p)
unfolding init_iter
init_iter-Ending p = search memory_rules

pub entry_texts-Ending : (e : Entry) → Ending (entry_texts e)
unfolding entry_texts
entry_texts-Ending e = search memory_rules

reserve-Ending : (s : Slot) (key_len val_len : ℕ) → Ending (reserve s key_len val_len)
unfolding reserve
reserve-Ending s key_len val_len = search memory_rules depth 12

reserve_literal-Ending : (it : Iter) (key val : List ℕ) → Ending (reserve_literal it key val)
unfolding reserve_literal
reserve_literal-Ending it key val = search memory_rules depth 12

put_header-Ending : (s : Slot) (h : Header) → Ending (put_header s h)
unfolding put_header
put_header-Ending s h = bind-Ending _ _ (reserve-Ending s _ _) λ got.
    bind-Ending _ _ (copy_in-Ending got.1.key h.key)
      λ _. bind-Ending _ _ (copy_in-Ending got.1.val h.value) λ _. ok-Ending got.1

pub put_headers-Ending : (s : Slot) (hs : List Header) → Ending (put_headers s hs)
unfolding put_headers
put_headers-Ending s [] = ok-Ending s
put_headers-Ending s (h ∷ hs) =
    bind-Ending _ _ (put_header-Ending s h) λ s'. put_headers-Ending s' hs

put_literal-Ending : (h : Header) (s : Slot) → Ending (put_literal h s)
unfolding put_literal
put_literal-Ending h s =
    bind-Ending _ _ (reserve_literal-Ending s.it h.key h.value) λ got. ok-Ending _

put_text-Ending : (key : List ℕ) (o : Option (List ℕ)) (s : Slot) → Ending (put_text key o s)
put_text-Ending key none s = ok-Ending s
put_text-Ending key (some val) s = put_header-Ending s _

put_chunked-Ending : (o : Option (List ℕ)) (s : Slot) → Ending (put_chunked o s)
put_chunked-Ending none s = ok-Ending s
put_chunked-Ending (some val) s = put_literal-Ending _ s

put_part-Ending : (ng : Nginx) (part : List TableElt) (s : Slot) → Ending (put_part ng part s)
unfolding put_part
put_part-Ending ng [] s = ok-Ending s
put_part-Ending ng (header ∷ part) s =
    if_Ending (header.hash == 0) _ _ (put_part-Ending ng part s)
      (bind-Ending _ _ (put_header-Ending s _) λ s'. put_part-Ending ng part s')

pub put_resp_headers-Ending :
    (ng : Nginx) (r : Request) (len status : Option (List ℕ)) (s : Slot)
    → Ending (put_resp_headers ng r len status s)
unfolding put_resp_headers
put_resp_headers-Ending ng r len status s =
    search (bind-Ending, put_part-Ending, put_text-Ending, put_literal-Ending, put_chunked-Ending)
      depth 10

pub ruleset ending_rules = (
  memory_rules, copy_block-Ending, init_map-Ending, init_iter-Ending, entry_texts-Ending,
  put_headers-Ending, put_resp_headers-Ending,
)

invoke_params-Ends :
    (e : Engine) (name : String) (has_result : Bool) (params : Option (List ℕ)) (p : Plugin)
    → Ends (invoke_params e name has_result params p)
unfolding invoke_params
invoke_params-Ends e name has_result none p = tt
invoke_params-Ends e name has_result (some params) p = elim (Bool-cases (e.is_function name)) [
  | inl e' ↦ rw e' tt
  | inr e' ↦ rw e' tt
]

count_Ends :
    (e : Engine) (name : String) (has_result : Bool) (args : List ℕ) (count : Option ℕ) (p : Plugin)
    → Ends (elim count [
      | none ↦ ok ngx_error p
      | some n ↦ invoke_params e name has_result (va_args n args) p
    ])
count_Ends e name has_result args none p = tt
count_Ends e name has_result args (some n) p = invoke_params-Ends e name has_result _ p

pub call-Ending :
    (e : Engine) (name : String) (has_result : Bool) (param_type : ℕ) (args : List ℕ)
    → Ending (call e name has_result param_type args)
unfolding call
call-Ending e name has_result param_type args = record {
  ends = λ p. elim (Bool-cases (e.exports name)) [
    | inl yes' ↦ rw yes' (count_Ends e name has_result args (param_num param_type) p)
    | inr no' ↦ rw no' tt
  ];
}
