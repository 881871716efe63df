-- ===== src/Chars.antt =====
-- `ngx_http_wasm_check_unsafe_uri_bytes` and `ngx_http_wasm_check_unsafe_method` of
-- src/http/ngx_http_wasm_api.c: the bytes that a plugin may put into a path or a method.
pub mod Laws
use Prim.Native.Nat.{bit_and}
use wasm_nginx_module.Prelude.{
  ℕ, ◌*◌, ◌/◌, ◌%◌, ◌^◌, Bool, true, false, ◌&&◌, ◌||◌, not, List, [], ◌∷◌, Option, none, some, ltb,
  leb, ◌==◌, if◌then◌else◌, get_or,
}

-- The table of 256 bits: %00-%08, %0A-%1F, %7F.
abbrev pub unsafe_bits : List ℕ
unsafe_bits = 0xfffffdff ∷ 0 ∷ 0 ∷ 0x80000000 ∷ 0 ∷ 0 ∷ 0 ∷ 0 ∷ []

-- `unsafe[c >> 5] & (1 << (c & 0x1f))`.
unfoldable pub is_unsafe : ℕ → Bool
is_unsafe c = not (bit_and (get_or unsafe_bits (c / 32) 0) (2 ^ (c % 32)) == 0)

-- The loop, which stops at the first byte that is not allowed: `some` of it is NGX_ERROR.
unfoldable pub check_unsafe_uri_bytes : List ℕ → Option ℕ
check_unsafe_uri_bytes [] = none
check_unsafe_uri_bytes (c ∷ str) = if is_unsafe c then some c else check_unsafe_uri_bytes str

unfoldable pub is_letter : ℕ → Bool
is_letter c = (leb b'A' c && leb c b'Z') || (leb b'a' c && leb c b'z')

unfoldable pub check_unsafe_method : List ℕ → Option ℕ
check_unsafe_method [] = none
check_unsafe_method (c ∷ str) = if not (is_letter c) then some c else check_unsafe_method str
