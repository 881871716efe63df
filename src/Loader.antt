-- ===== src/Loader.antt =====
-- How src/vm/wasmtime.c and src/vm/wasmedge.c acquire and release the objects of their engines when a
-- plugin is loaded and unloaded. The state is the list of the objects that are held, the latest first.
-- To release an object that is not held is undefined behaviour.
pub mod Wasmtime
pub mod WasmtimeLaws
pub mod Wasmedge
pub mod WasmedgeLaws
pub mod Plugin
pub mod PluginLaws
use wasm_nginx_module.Prelude.{
  ℕ, Bool, true, false, List, [], ◌∷◌, Option, none, some, ◌==◌, if◌then◌else◌,
}
use wasm_nginx_module.Run.{M, ok, fault, and_then, Returns}

-- The kinds of objects are told apart by a number.
module _ {R : Type 0} (code : R → ℕ) where
  abbrev pub without : R → List R → Option (List R)
  without r [] = none
  without r (x ∷ xs) =
      if code r == code x
      then some xs
      else elim (without r xs) [ none ↦ none | some ys ↦ some (x ∷ ys) ]

  abbrev pub release : R → M (List R) (Unit {0})
  release r held = elim (without r held) [ none ↦ fault | some rest ↦ ok tt rest ]

  -- A call that gives a new object, if it succeeds.
  abbrev pub acquire : R → Bool → M (List R) Bool
  acquire r succeeds held = if succeeds then ok true (r ∷ held) else ok false held

  -- Both ways on from such a call.
  pub acquire_then :
      {A : Type 0} {P : A → List R → Type 0} (r : R) (succeeds : Bool) (held : List R)
      (k : Bool → M (List R) A)
      → Returns P (k true (r ∷ held))
      → Returns P (k false held)
      → Returns P (and_then (acquire r succeeds held) k)
  acquire_then r true held k made failed = made
  acquire_then r false held k made failed = failed
