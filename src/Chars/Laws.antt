-- ===== src/Chars/Laws.antt =====
-- Which texts the two checks of src/http/ngx_http_wasm_api.c let pass, against the ranges of bytes
-- that the comment in the source lists.
use wasm_nginx_module.Prelude.{
  ℕ, zero, suc, subst, ◌<◌, ◌≡◌, ◌⊎◌, inl, inr, refl, Bool, true, false, ◌&&◌, ◌||◌, not, List, [],
  ◌∷◌, ◌++◌, none, some, arith, leb, ltb, ◌==◌, All, Bool-cases,
}
use wasm_nginx_module.Chars.{is_unsafe, check_unsafe_uri_bytes, is_letter, check_unsafe_method}

-- The control characters but the tab, and DEL.
abbrev pub is_control : ℕ → Bool
is_control c = ltb c 9 || ((leb 10 c && ltb c 32) || c == 127)

both_or_neither : Bool → Bool → Bool
both_or_neither true b = b
both_or_neither false b = not b

both_or_neither-eq : (a b : Bool) → both_or_neither a b ≡ true → a ≡ b
unfolding both_or_neither
both_or_neither-eq true b h = ground arith
both_or_neither-eq false b h = ground arith

and_head : (a b : Bool) → a && b ≡ true → a ≡ true
and_head true b h = refl
and_head false b h = h

and_tail : (a b : Bool) → a && b ≡ true → b ≡ true
and_tail true b h = h
and_tail false b h = absurd (ground arith)

-- The table agrees with the ranges on the first bytes.
agrees : ℕ → Bool
unfolding both_or_neither is_unsafe
agrees zero = true
agrees (suc c) = let rest = agrees c in both_or_neither (is_unsafe c) (is_control c) && rest

agrees_everywhere : agrees 256 ≡ true
unfolding agrees
agrees_everywhere = refl

agrees_at : (bound c : ℕ) → agrees bound ≡ true → c < bound → is_unsafe c ≡ is_control c
unfolding agrees
agrees_at zero c h in_range = absurd (omega arith)
agrees_at (suc k) c h in_range = elim (Bool-cases (c == k)) [
  | inl e ↦
      subst (λ x. is_unsafe x ≡ is_control x) (ground arith)
        (both_or_neither-eq (is_unsafe k) (is_control k) (and_head _ _ h))
  | inr e ↦ agrees_at k c (and_tail _ _ h) (ground arith)
]

-- The 256 bits of the table say what its comment says.
pub is_unsafe-is_control : (c : ℕ) → c < 256 → is_unsafe c ≡ is_control c
is_unsafe-is_control c h = agrees_at 256 c agrees_everywhere h

-- `some c` of a check on the text `str`: `c` is bad, and the first of its kind.
abbrev pub FirstBad : (ℕ → Bool) → List ℕ → ℕ → Type 0
FirstBad bad str c =
    (pre : List ℕ) × (post : List ℕ) × (str ≡ pre ++ c ∷ post)
    × (bad c ≡ true)
    × All (λ x. bad x ≡ false) pre

FirstBad-cons :
    {bad : ℕ → Bool} {str : List ℕ} {d : ℕ} (c : ℕ)
    → bad c ≡ false
    → FirstBad bad str d
    → FirstBad bad (c ∷ str) d
FirstBad-cons c e (pre, post, split, hit, before) = (c ∷ pre, post, rw split, hit, (e, before))

-- A path passes exactly if none of its bytes is a control character, a tab apart; otherwise the byte
-- that is reported is the first such one.
pub check_unsafe_uri_bytes-is_control :
    (str : List ℕ)
    → All (λ c. c < 256) str
    → ((check_unsafe_uri_bytes str ≡ none) × All (λ c. is_control c ≡ false) str)
      ⊎ ((c : ℕ) × (check_unsafe_uri_bytes str ≡ some c) × FirstBad is_control str c)
unfolding check_unsafe_uri_bytes
check_unsafe_uri_bytes-is_control [] b = inl (refl, tt)
check_unsafe_uri_bytes-is_control (c ∷ str) b = elim (Bool-cases (is_control c)) [
  | inl e ↦ inr (c, rw (is_unsafe-is_control c b.0, e), ([], str, refl, e, tt))
  | inr e ↦ elim (check_unsafe_uri_bytes-is_control str b.1) [
    | inl (none_bad, all) ↦ inl (rw (is_unsafe-is_control c b.0, e, none_bad), (e, all))
    | inr (d, found, first) ↦
        inr (d, rw (is_unsafe-is_control c b.0, e, found), FirstBad-cons c e first)
  ]
]

-- A method passes exactly if all its bytes are letters.
pub check_unsafe_method-is_letter :
    (str : List ℕ)
    → ((check_unsafe_method str ≡ none) × All (λ c. is_letter c ≡ true) str)
      ⊎ ((c : ℕ) × (check_unsafe_method str ≡ some c) × FirstBad (λ x. not (is_letter x)) str c)
unfolding check_unsafe_method
check_unsafe_method-is_letter [] = inl (refl, tt)
check_unsafe_method-is_letter (c ∷ str) = elim (Bool-cases (is_letter c)) [
  | inr e ↦ inr (c, rw e, ([], str, refl, rw e, tt))
  | inl e ↦ elim (check_unsafe_method-is_letter str) [
    | inl (none_bad, all) ↦ inl (rw (e, none_bad), (e, all))
    | inr (d, found, first) ↦ inr (d, rw (e, found), FirstBad-cons c (rw e) first)
  ]
]

pub letters_pass :
    (str : List ℕ) → All (λ c. is_letter c ≡ true) str → check_unsafe_method str ≡ none
unfolding check_unsafe_method
letters_pass [] all = refl
letters_pass (c ∷ str) all = rw (all.0, letters_pass str all.1)
