-- ===== src/Login/Orgs/LoggedOut.antt =====
-- What a logout leaves of a token.
use axiaops.Common.{
  Bool-cases, ◌==◌, string_eq, nat_eq, ℕ, String, ◌≡◌, inl, inr, true, false, none, some, [], ◌∷◌,
  arith,
}
use axiaops.Session.{Rows, Session, get_session_by_token_hash, find_hash}
use axiaops.Session.Manager.{Faults, State, validate_session}
use axiaops.Session.Revoked.{revoke_refuses}
use axiaops.Login.Orgs.{logout}

find_hash-hash :
    (hash : String) (rows : Rows) (s : Session)
    → find_hash hash rows ≡ some s
    → s.session_token_hash ≡ hash
unfolding find_hash
find_hash-hash hash [] s e = cc
find_hash-hash hash (r ∷ rows) s e = elim (Bool-cases (r.session_token_hash == hash)) [
  | inl found ↦ ground (arith, found, e)
  | inr other ↦ find_hash-hash hash rows s (ground (arith, other, e))
]

-- A logout with a token that is not empty, whose hash the table gives a row for, with an identifier
-- that is not empty, leaves sessions in which the token is refused at any time and whichever cache
-- operations fail then, if the logout's own delete in the cache works.
pub logout-validate_session :
    (hash_token : String → String) (f : Faults) (now : ℕ) (token : String) (st : State)
    (s : Session)
    → (token == "") ≡ false
    → (s.id == "") ≡ false
    → f.delete_works ≡ true
    → get_session_by_token_hash (hash_token token) st.table ≡ some s
    → (g : Faults) (later : ℕ)
    → (validate_session hash_token g later token (logout hash_token f now token st)).1 ≡ none
unfolding logout get_session_by_token_hash
logout-validate_session hash_token f now token st s t i w e g later =
    elim (Bool-cases (hash_token token == "")) [
      | inl blank ↦ ground (arith, blank, e)
      | inr h ↦
          (let e' : find_hash (hash_token token) st.table ≡ some s = ground (arith, h, e) in
            let (after, done, refused) = revoke_refuses hash_token f now token st s i h w e' in
            rw (t, e, find_hash-hash (hash_token token) st.table s e', done) (refused g later))
    ]
