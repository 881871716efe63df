-- ===== src/SetHeader/PseudoHeaders.antt =====
-- What the header functions of src/http/ngx_http_wasm_api.c do with pseudo headers.
use wasm_nginx_module.Prelude.{
  ℕ, suc, ◌≡◌, ◌≢◌, Bool, true, false, List, [], none, some, length, ◌==◌, arith, All,
}
use wasm_nginx_module.Run.{ok}
use wasm_nginx_module.Host.{Host, Nginx}
use wasm_nginx_module.Pseudo.{authority, find_pseudo, starts_with_colon}
use wasm_nginx_module.Chars.{is_letter}
use wasm_nginx_module.Chars.Laws.{letters_pass}
use wasm_nginx_module.SetHeader.{settable, palloc, set_method, set_by_type, set_req_header}

module _ (ng : Nginx) where
  -- A pseudo header of the request cannot be removed: the attempt is an error and changes nothing.
  pub remove_pseudo :
      (key : List ℕ) (h : Host)
      → starts_with_colon key ≡ true
      → set_req_header ng key none true h ≡ ok false h
  unfolding set_req_header
  remove_pseudo key h colon = rw colon

  -- To set `:authority` sets the method: where nginx gives memory for a copy, any name of letters that a
  -- plugin gives as the authority becomes the method of the request. Beside that allocation nothing
  -- else of the host changes.
  pub set_authority :
      (key val : List ℕ) (override : Bool) (h : Host)
      → starts_with_colon key ≡ true
      → find_pseudo ng settable key ≡ some authority
      → val ≢ []
      → All (λ c. is_letter c ≡ true) val
      → ng.palloc h.tick (length val) ≡ true
      → set_req_header ng key (some val) override h
        ≡ ok true (record h {
          plugin = record { mem = h.mem; tick = suc h.tick };
          r = record (h.r) { method_name = val };
        })
  unfolding set_req_header set_by_type set_method palloc
  set_authority key val override h colon found ne letters room =
      let full : (length val == 0) ≡ false = ground arith in
      rw (colon, full, found, set_by_type, set_method, letters_pass val letters, room)
