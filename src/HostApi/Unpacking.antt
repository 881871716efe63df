-- ===== src/HostApi/Unpacking.antt =====
-- How the wrappers of src/http/ngx_http_wasm_api_wasmtime.h and
-- src/http/ngx_http_wasm_api_wasmedge.h take their arguments apart, for each of the parameter lists.
use wasm_nginx_module.Prelude.{
  ℕ, zero, suc, ◌+◌, ◌<◌, ◌≤◌, ◌≡◌, refl, inl, inr, List, [], ◌∷◌, some, length, get_elem?, drop,
  map, arith, Option-cases,
}
use wasm_nginx_module.Run.{M, fault, undefined, and_then}
use wasm_nginx_module.Host.{Host, ProxyResult}
use wasm_nginx_module.HostApi.{Shape, void, i32s, i32_i64, Curried, Fn, words}
use wasm_nginx_module.HostApi.Wasmtime
use wasm_nginx_module.HostApi.Wasmtime.{Val, val_i32, val_i64, kind}
use wasm_nginx_module.HostApi.Wasmedge
use wasm_nginx_module.HostApi.Wasmedge.{Values, ReadsBack}

-- A host function applied to arguments of its parameter list, one after the other.
abbrev pub apply_words : (n : ℕ) → Curried n → List Val → M Host ProxyResult
apply_words zero f args = f
apply_words (suc n) f [] = undefined
apply_words (suc n) f (val_i32 w ∷ args) = apply_words n (f w) args
apply_words (suc n) f (val_i64 w ∷ args) = undefined

abbrev pub apply : (s : Shape) → Fn s → List Val → M Host ProxyResult
apply void f args = f
apply (i32s n) f args = apply_words n f args
apply i32_i64 f (val_i32 a ∷ val_i64 b ∷ []) = f a b
apply i32_i64 f args = undefined

get_elem?-drop :
    {A : Type 0} (i : ℕ) (xs : List A) (y : A) (ys : List A)
    → drop i xs ≡ y ∷ ys
    → (get_elem? xs i ≡ some y) × (drop (suc i) xs ≡ ys)
get_elem?-drop zero [] y ys e = absurd (cc)
get_elem?-drop zero (x ∷ xs) y ys e = (cc, cc)
get_elem?-drop (suc i) [] y ys e = absurd (cc)
get_elem?-drop (suc i) (x ∷ xs) y ys e = get_elem?-drop i xs y ys e

get_elem?-lt : {A : Type 0} (xs : List A) (i : ℕ) (y : A) → get_elem? xs i ≡ some y → i < length xs
get_elem?-lt [] i y e = absurd (cc)
get_elem?-lt (x ∷ xs) zero y e = omega arith
get_elem?-lt (x ∷ xs) (suc i) y e = omega (arith, get_elem?-lt xs i y e)

unpack-apply_words :
    (n i : ℕ) (f : Curried n) (all args : List Val) (h : Host)
    → drop i all ≡ args
    → map kind args ≡ words n
    → Wasmtime.unpack n i f all h ≡ apply_words n f args h
unfolding Wasmtime.unpack
unpack-apply_words zero i f all args h d k = refl
unpack-apply_words (suc n) i f all [] h d k = absurd (cc)
unpack-apply_words (suc n) i f all (val_i64 w ∷ args) h d k = absurd (cc)
unpack-apply_words (suc n) i f all (val_i32 w ∷ args) h d k =
    let (got, rest) = get_elem?-drop i all (val_i32 w) args d in
    rw (got, Wasmtime.arg) (unpack-apply_words n (suc i) (f w) all args h rest (cc))

read_fault :
    {A : Type 0} (v : Val) (k : ℕ → M Host A) (h : Host)
    → ((p : ℕ) → k p h ≡ fault)
    → and_then (Wasmtime.of_i32 v h) k ≡ fault
unfolding Wasmtime.of_i32
read_fault (val_i32 w) k h all = all w
read_fault (val_i64 w) k h all = all _

-- A call that passes fewer arguments than the wrapper reads is a read behind their end.
unpack_short :
    (n i : ℕ) (f : Curried n) (all : List Val) (h : Host)
    → i ≤ length all
    → length all < i + n
    → Wasmtime.unpack n i f all h ≡ fault
unfolding Wasmtime.unpack
unpack_short zero i f all h le lt = absurd (omega arith)
unpack_short (suc n) i f all h le lt = elim (Option-cases (get_elem? all i)) [
  | inl e ↦ rw (e, Wasmtime.arg)
  | inr (v, e) ↦
      rw (e, Wasmtime.arg)
        (read_fault v (λ p. Wasmtime.unpack n (suc i) (f p) all) h
          λ p.
            unpack_short n (suc i) (f p) all h (omega (arith, get_elem?-lt all i v e))
              (omega arith))
]

pub arg_check-apply :
    (s : Shape) (f : Fn s) (args : List Val) (h : Host)
    → map kind args ≡ Wasmtime.arg_types s
    → Wasmtime.arg_check s f args h ≡ apply s f args h
unfolding Wasmtime.arg_check Wasmtime.arg_types
arg_check-apply void f args h k = refl
arg_check-apply (i32s n) f args h k = unpack-apply_words n 0 f args args h refl k
arg_check-apply i32_i64 f (val_i32 a ∷ val_i64 b ∷ []) h k = refl
arg_check-apply i32_i64 f [] h k = absurd (cc)
arg_check-apply i32_i64 f (val_i64 a ∷ args) h k = absurd (cc)
arg_check-apply i32_i64 f (val_i32 a ∷ []) h k = absurd (cc)
arg_check-apply i32_i64 f (val_i32 a ∷ val_i32 b ∷ args) h k = absurd (cc)
arg_check-apply i32_i64 f (val_i32 a ∷ val_i64 b ∷ v ∷ args) h k = absurd (cc)

pub arg_check_short :
    (s : Shape) (f : Fn s) (args : List Val) (h : Host)
    → length args < Wasmtime.arg_num s
    → Wasmtime.arg_check s f args h ≡ fault
unfolding Wasmtime.arg_check Wasmtime.arg_num Wasmtime.arg Wasmtime.of_i32
arg_check_short void f args h lt = absurd (omega arith)
arg_check_short (i32s n) f args h lt = unpack_short n 0 f args h (omega arith) (omega arith)
arg_check_short i32_i64 f [] h lt = refl
arg_check_short i32_i64 f (val_i32 a ∷ []) h lt = refl
arg_check_short i32_i64 f (val_i64 a ∷ []) h lt = refl
arg_check_short i32_i64 f (v ∷ w ∷ args) h lt = absurd (omega arith)

module _ (vs : Values) (back : ReadsBack vs) where
  -- A value of wasmtime as one of WasmEdge.
  abbrev pub encode : Val → vs.Value
  encode (val_i32 w) = vs.value_gen_i32 w
  encode (val_i64 w) = vs.value_gen_i64 w

  get_elem?-map :
      (i : ℕ) (args : List Val) (v : Val)
      → get_elem? args i ≡ some v
      → get_elem? (map encode args) i ≡ some (encode v)
  get_elem?-map i [] v e = absurd (cc)
  get_elem?-map zero (a ∷ args) v e = cc
  get_elem?-map (suc i) (a ∷ args) v e = get_elem?-map i args v e

  unpack_wasmedge :
      (n i : ℕ) (f : Curried n) (all args : List Val) (h : Host)
      → drop i all ≡ args
      → map kind args ≡ words n
      → Wasmedge.unpack vs n i f (map encode all) h ≡ apply_words n f args h
  unfolding Wasmedge.unpack
  unpack_wasmedge zero i f all args h d k = refl
  unpack_wasmedge (suc n) i f all [] h d k = absurd (cc)
  unpack_wasmedge (suc n) i f all (val_i64 w ∷ args) h d k = absurd (cc)
  unpack_wasmedge (suc n) i f all (val_i32 w ∷ args) h d k =
      let (got, rest) = get_elem?-drop i all (val_i32 w) args d in
      rw (get_elem?-map i all (val_i32 w) got, Wasmedge.arg)
        (rw (back.get-gen_i32 w) (unpack_wasmedge n (suc i) (f w) all args h rest (cc)))

  pub arg_check_wasmedge :
      (s : Shape) (f : Fn s) (args : List Val) (h : Host)
      → map kind args ≡ Wasmtime.arg_types s
      → Wasmedge.arg_check vs s f (map encode args) h ≡ apply s f args h
  unfolding Wasmedge.arg_check Wasmtime.arg_types Wasmedge.arg
  arg_check_wasmedge void f args h k = refl
  arg_check_wasmedge (i32s n) f args h k = unpack_wasmedge n 0 f args args h refl k
  arg_check_wasmedge i32_i64 f (val_i32 a ∷ val_i64 b ∷ []) h k =
      rw (back.get-gen_i32 a, back.get-gen_i64 b)
  arg_check_wasmedge i32_i64 f [] h k = absurd (cc)
  arg_check_wasmedge i32_i64 f (val_i64 a ∷ args) h k = absurd (cc)
  arg_check_wasmedge i32_i64 f (val_i32 a ∷ []) h k = absurd (cc)
  arg_check_wasmedge i32_i64 f (val_i32 a ∷ val_i32 b ∷ args) h k = absurd (cc)
  arg_check_wasmedge i32_i64 f (val_i32 a ∷ val_i64 b ∷ v ∷ args) h k = absurd (cc)
