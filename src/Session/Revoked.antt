-- ===== src/Session/Revoked.antt =====
-- What becomes of a session's token once the session is revoked.
use axiaops.Common.{
  is_some, or_else, ◌==◌, string_eq, nat_eq, ℕ, String, ◌<>◌, ◌≡◌, refl, true, false, Option, none,
  some, [], ◌∷◌, arith,
}
use axiaops.Common.Dict.{lookup-erase}
use axiaops.Cache.{Cache, get, del}
use axiaops.Session.{
  Session, live, Rows, find_hash, get_session_by_token_hash, revoke_id, revoke_session,
}
use axiaops.Session.Manager.{
  Faults, State, cache_get, cache_delete, validate_session, revoke, on_cache,
}

-- The row that the table gives for a hash after a revocation.
find_hash-revoke_id :
    (now : ℕ) (id hash : String) (rows : Rows) (s : Session)
    → find_hash hash rows ≡ some s
    → s.id ≡ id
    → find_hash hash (revoke_id now id rows)
      ≡ some (record s { revoked_at = some (or_else s.revoked_at now) })
unfolding find_hash revoke_id
find_hash-revoke_id now id hash [] s e i = cc
find_hash-revoke_id now id hash (r ∷ rows) s e i =
    ground (arith, find_hash-revoke_id now id hash rows s)

-- Whatever is returned by the validation of a token is live at that time.
pub validate_session-live :
    (hash_token : String → String) (f : Faults) (now : ℕ) (token : String) (st : State)
    (s : Session)
    → (validate_session hash_token f now token st).1 ≡ some s
    → live now s ≡ true
unfolding validate_session live
validate_session-live hash_token f now token st s e = ground arith

cache_get-deleted :
    (f g : Faults) (later : ℕ) (hash : String) (cache : Option (Cache Session))
    → (hash == "") ≡ false
    → f.delete_works ≡ true
    → cache_get g later hash (on_cache (cache_delete f hash) cache) ≡ none
unfolding cache_get cache_delete get del
cache_get-deleted f g later hash none h d = ground arith
cache_get-deleted f g later hash (some c) h d =
    ground (arith, lookup-erase ("axiaops:session:" <> hash) ("axiaops:session:" <> hash) c.items)

validate_session-miss :
    (hash_token : String → String) (g : Faults) (later : ℕ) (token : String) (st : State)
    (s : Session)
    → cache_get g later (hash_token token) st.cache ≡ none
    → find_hash (hash_token token) st.table ≡ some s
    → is_some s.revoked_at ≡ true
    → (validate_session hash_token g later token st).1 ≡ none
unfolding validate_session get_session_by_token_hash live
validate_session-miss hash_token g later token st s c e r = ground arith

-- The state after a revocation.
abbrev revoked : Faults → ℕ → String → String → State → State
revoked f now id hash st = record {
  table = revoke_id now id st.table;
  cache = on_cache (cache_delete f hash) st.cache;
}

-- The revocation of the row that the table gives for a token's hash, by its identifier and that hash,
-- neither of them empty, succeeds; if the delete in the cache works, the token is refused after it,
-- at whatever time and whichever cache operations fail during the validation.
pub revoke_refuses :
    (hash_token : String → String) (f : Faults) (now : ℕ) (token : String) (st : State)
    (s : Session)
    → (s.id == "") ≡ false
    → (hash_token token == "") ≡ false
    → f.delete_works ≡ true
    → find_hash (hash_token token) st.table ≡ some s
    → (st' : State) × (revoke f now s.id (hash_token token) st ≡ some st')
      × ((g : Faults) (later : ℕ) → (validate_session hash_token g later token st').1 ≡ none)
unfolding revoke revoke_session
revoke_refuses hash_token f now token st s i h d e = (
  revoked f now s.id (hash_token token) st,
  rw i refl,
  λ g later.
      validate_session-miss hash_token g later token (revoked f now s.id (hash_token token) st)
        (record s { revoked_at = some (or_else s.revoked_at now) })
        (cache_get-deleted f g later (hash_token token) st.cache h d)
        (find_hash-revoke_id now s.id (hash_token token) st.table s e refl) refl,
)
