-- ===== src/GetHeader/Search.antt =====
-- The loops of `ngx_http_wasm_req_get_header` and `ngx_http_wasm_http_call_resp_get_header` of
-- src/http/ngx_http_wasm_api.c: which header they stop at.
use wasm_nginx_module.Prelude.{
  ℕ, ◌≡◌, ◌≢◌, inl, inr, refl, Bool, true, false, ◌&&◌, List, [], ◌∷◌, ◌++◌, Option, none, some,
  arith, length, ◌==◌, All, length-append, Option-cases, if◌then◌else◌,
}
use wasm_nginx_module.Run.{ok}
use wasm_nginx_module.Map.Layout.{Header}
use wasm_nginx_module.Host.{Host, Nginx, TableElt, elements}
use wasm_nginx_module.GetHeader.{matches, search_part, search_parts, search_headers}

-- `x` is the first of `xs` that passes the test.
pub record First {ℓ} {A : Type ℓ} (test : A → Bool) (xs : List A) (x : A) : Type ℓ where
  pub before : List A
  pub after : List A
  pub split : xs ≡ before ++ x ∷ after
  pub passes : test x ≡ true
  pub failed : All (λ y. test y ≡ false) before

-- The value of the first of `xs` that passes the test.
unfoldable pub first_value : {A : Type 0} → (A → Bool) → (A → List ℕ) → List A → Option (List ℕ)
first_value test value [] = none
first_value test value (x ∷ xs) = if test x then some (value x) else first_value test value xs

first_value_behind :
    {A : Type 0} (test : A → Bool) (value : A → List ℕ) (before after : List A) (x : A)
    → All (λ y. test y ≡ false) before
    → test x ≡ true
    → first_value test value (before ++ x ∷ after) ≡ some (value x)
unfolding first_value
first_value_behind test value [] after x none_fits fits = rw fits
first_value_behind test value (y ∷ ys) after x (misfit, none_fits) fits =
    rw misfit (first_value_behind test value ys after x none_fits fits)

pub first_value-First :
    {A : Type 0} (test : A → Bool) (value : A → List ℕ) (xs : List A) (x : A)
    → First test xs x
    → first_value test value xs ≡ some (value x)
first_value-First test value xs x f =
    rw f.split (first_value_behind test value f.before f.after x f.failed f.passes)

-- A list with a header that fits is not empty.
pub First-nonempty {ℓ} :
    {A : Type ℓ} (test : A → Bool) (xs : List A) (x : A)
    → First test xs x
    → (length xs == 0) ≡ false
First-nonempty test xs x f =
    let n = length-append f.before (x ∷ f.after) in rw f.split (ground arith)

pub first_value-none :
    {A : Type 0} (test : A → Bool) (value : A → List ℕ) (xs : List A)
    → All (λ y. test y ≡ false) xs
    → first_value test value xs ≡ none
unfolding first_value
first_value-none test value [] none_fits = refl
first_value-none test value (x ∷ xs) (misfit, none_fits) =
    rw misfit (first_value-none test value xs none_fits)

-- Whether a header of a call's response has the name `key`.
abbrev pub is_named : Nginx → List ℕ → Header → Bool
is_named ng key h = (length key == length h.key) && ng.strncasecmp_eq key h.key

module _ (ng : Nginx) (key : List ℕ) where
  search_part-append :
      (xs ys : List TableElt)
      → search_part ng key xs ≡ none
      → search_part ng key (xs ++ ys) ≡ search_part ng key ys
  unfolding search_part
  search_part-append [] ys e = refl
  search_part-append (x ∷ xs) ys e = ground (arith, search_part-append xs ys)

  search_part-found :
      (xs ys : List TableElt) (val : List ℕ)
      → search_part ng key xs ≡ some val
      → search_part ng key (xs ++ ys) ≡ some val
  unfolding search_part
  search_part-found [] ys val e = ground arith
  search_part-found (x ∷ xs) ys val e = ground (arith, search_part-found xs ys val)

  -- On a list of nginx the search through the parts is that through the list of all elements: it
  -- returns, changes nothing, and stops at the same header.
  pub search_parts-elements :
      (part : List TableElt) (next : List (List TableElt)) (h : Host)
      → All (λ part'. part' ≢ []) next
      → search_parts ng key part next h ≡ ok (search_part ng key (elements part next)) h
  unfolding search_parts
  search_parts-elements part [] h ne = refl
  search_parts-elements part (part' ∷ next) h (ne, nes) =
      let more : (length part' == 0) ≡ false = ground arith in
      elim (Option-cases (search_part ng key part)) [
        | inl e ↦
            rw (search_parts, e, more, search_part-append part (elements part' next) e)
              (search_parts-elements part' next h nes)
        | inr (val, e) ↦ rw (search_parts, e, search_part-found part (elements part' next) val e)
      ]

  pub search_part-first_value :
      (xs : List TableElt) → search_part ng key xs ≡ first_value (matches ng key) (λ x. x.value) xs
  unfolding search_part first_value
  search_part-first_value [] = refl
  search_part-first_value (x ∷ xs) = rw (search_part-first_value xs)

  pub search_headers-first_value :
      (xs : List Header)
      → search_headers ng key xs ≡ first_value (is_named ng key) (λ x. x.value) xs
  unfolding search_headers first_value
  search_headers-first_value [] = refl
  search_headers-first_value (x ∷ xs) = rw (search_headers-first_value xs)
