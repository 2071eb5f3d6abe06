-- ===== src/Session/Manager.antt =====
-- Validation and revocation through the cache: services/api/internal/auth/session.go and
-- session_cache.go. The cache is the one of Cache.antt, with sessions for the encoded values; each
-- of its operations may fail, as an outside cache does, and `Faults` says which ones work. The
-- manager's clock and the cache's are one. Metrics and logging are left out.
use axiaops.Common.{
  ltb, leb, if◌then◌else◌, length, ◌==◌, string_eq, nat_eq, ℕ, ◌-◌, String, ◌<>◌, Bool, not, ◌||◌,
  Option, none, some, List, [], ◌∷◌,
}
use axiaops.Cache.{Cache, get, set, del}
use axiaops.Session.{
  Session, live, Rows, Created, create_session_enforcing_cap, get_session_by_token_hash,
  touch_session, revoke_session, revoke_user_sessions,
}

pub record Faults : Type 0 where
  pub get_works : Bool
  pub put_works : Bool
  pub delete_works : Bool

-- What the manager works on; no cache is Go's nil.
pub record State : Type 0 where
  pub table : Rows
  pub cache : Option (Cache Session)

abbrev cache_key : String → String
cache_key token_hash = "axiaops:session:" <> token_hash

abbrev get_from : ℕ → String → Option (Cache Session) → Option Session
get_from now token_hash none = none
get_from now token_hash (some c) = get now (cache_key token_hash) c

-- `SessionCache.Get`; a failure is a miss.
unfoldable pub cache_get : Faults → ℕ → String → Option (Cache Session) → Option Session
unfolding get
cache_get f now token_hash cache =
    if token_hash == "" || not f.get_works then none else get_from now token_hash cache

-- The time to live that `SessionCache.Put` computes; durations are nanoseconds.
abbrev put_ttl : ℕ → Session → ℕ
put_ttl now s =
    let ttl = s.expires_at - now in if ltb 86_400_000_000_000 ttl then 86_400_000_000_000 else ttl

-- `SessionCache.Put`
unfoldable pub cache_put : Faults → ℕ → Session → Cache Session → Cache Session
unfolding set
cache_put f now s c =
    if s.session_token_hash == "" || leb (s.expires_at - now) 5_000_000_000
    then c
    else if f.put_works
    then set now (cache_key s.session_token_hash) s (put_ttl now s) c
    else c

-- `SessionCache.Delete`
unfoldable pub cache_delete : Faults → String → Cache Session → Cache Session
unfolding del
cache_delete f token_hash c =
    if token_hash == "" then c else if f.delete_works then del (cache_key token_hash) c else c

-- `DeleteMany`
unfoldable pub cache_delete_many : Faults → List String → Cache Session → Cache Session
unfolding cache_delete
cache_delete_many f [] c = c
cache_delete_many f (h ∷ hs) c = cache_delete_many f hs (cache_delete f h c)

abbrev pub on_cache :
    (Cache Session → Cache Session) → Option (Cache Session) → Option (Cache Session)
on_cache op none = none
on_cache op (some c) = some (op c)

-- The row that a cache miss returns: with a cache, the copy has the new time.
abbrev seen : ℕ → Option (Cache Session) → Session → Session
seen now none s = s
seen now (some c) s = record s { last_seen_at = now }

abbrev from_table : Faults → ℕ → State → Option Session → State × Option Session
from_table f now st none = (st, none)
from_table f now st (some s) = if not (live now s) then (st, none) else (
  record {
    table = touch_session now s.id st.table;
    cache = on_cache (cache_put f now (seen now st.cache s)) st.cache;
  },
  some (seen now st.cache s),
)

abbrev from_cache :
    Faults → ℕ → String → State → Option Session → State × Option Session → State × Option Session
from_cache f now token_hash st none miss = miss
from_cache f now token_hash st (some cached) miss =
    if not (live now cached)
    then (record st { cache = on_cache (cache_delete f token_hash) st.cache }, none)
    else (st, some cached)

-- `ValidateSession`; `hash_token` is HashToken, which is SHA-256.
unfoldable pub validate_session :
    (String → String) → Faults → ℕ → String → State → State × Option Session
unfolding cache_get cache_put cache_delete touch_session live get_session_by_token_hash
validate_session hash_token f now token st =
    let token_hash = hash_token token in
    if token == ""
    then (st, none)
    else from_cache f now token_hash st (cache_get f now token_hash st.cache)
        (from_table f now st (get_session_by_token_hash token_hash st.table))

abbrev revoked_state : Faults → String → State → Option Rows → Option State
revoked_state f token_hash st none = none
revoked_state f token_hash st (some rows) =
    some (record { table = rows; cache = on_cache (cache_delete f token_hash) st.cache })

-- `Manager.RevokeSession`; `none` is an error, which changes nothing.
unfoldable pub revoke : Faults → ℕ → String → String → State → Option State
unfolding revoke_session cache_delete
revoke f now session_id token_hash st =
    revoked_state f token_hash st (revoke_session now session_id st.table)

abbrev revoked_user : Faults → State → Option (Rows × List String) → Option (State × ℕ)
revoked_user f st none = none
revoked_user f st (some (rows, hashes)) =
    some (
      record { table = rows; cache = on_cache (cache_delete_many f hashes) st.cache },
      length hashes,
    )

-- `Manager.RevokeUserSessions`, with the number of revoked sessions.
unfoldable pub revoke_all : Faults → ℕ → String → State → Option (State × ℕ)
unfolding revoke_user_sessions cache_delete_many
revoke_all f now user_id st = revoked_user f st (revoke_user_sessions now user_id st.table)

-- The end of `MintSession`, on what the table's transaction returns.
abbrev minted : Faults → ℕ → State → Option Created → Option (State × Session)
minted f now st none = none
minted f now st (some r) = some (
  record {
    table = r.rows;
    cache =
        on_cache (λ c. cache_delete_many f r.revoked_hashes (cache_put f now r.session c)) st.cache;
  },
  r.session,
)

-- `MintSession`, on the row that it builds from the request, a fresh identifier and a fresh token.
unfoldable pub mint_session : Faults → ℕ → ℕ → Session → State → Option (State × Session)
unfolding create_session_enforcing_cap cache_put cache_delete_many
mint_session f now per_user_cap s st =
    minted f now st (create_session_enforcing_cap now s per_user_cap st.table)
