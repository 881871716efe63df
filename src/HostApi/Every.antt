-- ===== src/HostApi/Every.antt =====
-- What holds of a host function of src/http/ngx_http_wasm_api.c with whatever arguments of the types of
-- its prototype in src/http/ngx_http_wasm_api_def.h.
use wasm_nginx_module.Prelude.{
  ℕ, zero, suc, ◌≡◌, refl, subst, List, [], ◌∷◌, some, get_elem?, map, All,
}
use wasm_nginx_module.Run.{M}
use wasm_nginx_module.Host.{Host, ProxyResult}
use wasm_nginx_module.HostApi.{Shape, void, i32s, i32_i64, Curried, Fn, words}
use wasm_nginx_module.HostApi.Wasmtime.{Val, val_i32, val_i64, kind}
use wasm_nginx_module.HostApi.Unpacking.{apply, apply_words}
use wasm_nginx_module.HostApi.Agreement.{Pairwise, kinds}

-- What holds of a host function with whatever words it is called.
abbrev pub EveryWord : (M Host ProxyResult → Type 0) → (n : ℕ) → Curried n → Type 0
EveryWord P zero f = P f
EveryWord P (suc n) f = (w : ℕ) → EveryWord P n (f w)

abbrev pub Every : (M Host ProxyResult → Type 0) → (s : Shape) → Fn s → Type 0
Every P void f = P f
Every P (i32s n) f = EveryWord P n f
Every P i32_i64 f = (a b : ℕ) → P (f a b)

EveryWord-apply_words :
    (P : M Host ProxyResult → Type 0) (n : ℕ) (f : Curried n) (args : List Val)
    → EveryWord P n f
    → map kind args ≡ words n
    → P (apply_words n f args)
EveryWord-apply_words P zero f args all k = all
EveryWord-apply_words P (suc n) f [] all k = absurd (cc)
EveryWord-apply_words P (suc n) f (val_i32 w ∷ args) all k =
    EveryWord-apply_words P n (f w) args (all w) (cc)
EveryWord-apply_words P (suc n) f (val_i64 w ∷ args) all k = absurd (cc)

pub Every-apply :
    (P : M Host ProxyResult → Type 0) (s : Shape) (f : Fn s) (args : List Val)
    → Every P s f
    → map kind args ≡ kinds s
    → P (apply s f args)
Every-apply P void f args all k = all
Every-apply P (i32s n) f args all k = EveryWord-apply_words P n f args all k
Every-apply P i32_i64 f (val_i32 a ∷ val_i64 b ∷ []) all k = all a b
Every-apply P i32_i64 f [] all k = absurd (cc)
Every-apply P i32_i64 f (val_i64 a ∷ args) all k = absurd (cc)
Every-apply P i32_i64 f (val_i32 a ∷ []) all k = absurd (cc)
Every-apply P i32_i64 f (val_i32 a ∷ val_i32 b ∷ args) all k = absurd (cc)
Every-apply P i32_i64 f (val_i32 a ∷ val_i64 b ∷ v ∷ args) all k = absurd (cc)

EveryWord-map :
    (P Q : M Host ProxyResult → Type 0) (n : ℕ) (f : Curried n)
    → ((g : M Host ProxyResult) → P g → Q g)
    → EveryWord P n f
    → EveryWord Q n f
EveryWord-map P Q zero f into all = into f all
EveryWord-map P Q (suc n) f into all = λ w. EveryWord-map P Q n (f w) into (all w)

pub Every-map :
    (P Q : M Host ProxyResult → Type 0) (s : Shape) (f : Fn s)
    → ((g : M Host ProxyResult) → P g → Q g)
    → Every P s f
    → Every Q s f
Every-map P Q void f into all = into f all
Every-map P Q (i32s n) f into all = EveryWord-map P Q n f into all
Every-map P Q i32_i64 f into all = λ a b. into (f a b) (all a b)

-- The element of the first list beside an element of the second.
pub Pairwise-get_elem? {ℓ κ} :
    {A : Type ℓ} {B : Type κ} (R : A → B → Type 0) (xs : List A) (ys : List B) (i : ℕ) (y : B)
    → Pairwise R xs ys
    → get_elem? ys i ≡ some y
    → (x : A) × (get_elem? xs i ≡ some x) × R x y
Pairwise-get_elem? R [] [] i y p e = absurd (cc)
Pairwise-get_elem? R [] (y' ∷ ys) i y p e = absurd p
Pairwise-get_elem? R (x ∷ xs) [] i y p e = absurd p
Pairwise-get_elem? R (x ∷ xs) (y' ∷ ys) zero y p e = (x, refl, subst (R x) (cc) p.0)
Pairwise-get_elem? R (x ∷ xs) (y' ∷ ys) (suc i) y p e = Pairwise-get_elem? R xs ys i y p.1 e

pub All-get_elem? {ℓ} :
    {A : Type ℓ} (P : A → Type 0) (xs : List A) (i : ℕ) (x : A)
    → All P xs
    → get_elem? xs i ≡ some x
    → P x
All-get_elem? P [] i x p e = absurd (cc)
All-get_elem? P (y ∷ xs) zero x p e = subst P (cc) p.0
All-get_elem? P (y ∷ xs) (suc i) x p e = All-get_elem? P xs i x p.1 e
