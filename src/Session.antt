-- ===== src/Session.antt =====
-- Login sessions: services/shared/model/session.go and the table of sessions in
-- services/shared/storage/postgres/native_auth.go. The table is the list of its rows; each
-- operation is one transaction, and `now` is the database's clock in it. The address, the user
-- agent and the encrypted identity token, which are only carried along, and failures of the
-- database itself are left out.
pub mod Selection
pub mod Cap
pub mod Manager
pub mod Revoked
mod Tests
use axiaops.Common.{
  str_lt, ltb, if◌then◌else◌, is_some, or_else, take, count_if, ◌==◌, contains, string_eq, nat_eq,
  ℕ, ◌+◌, ◌-◌, String, Bool, false, not, ◌&&◌, ◌||◌, Option, none, some, List, [], ◌∷◌, ◌++◌, map,
  arith,
}

pub record Session : Type 0 where
  pub id : String
  pub user_id : String
  pub organization_id : String
  pub auth_mode : String
  pub session_token_hash : String
  pub created_at : ℕ
  pub expires_at : ℕ
  pub revoked_at : Option ℕ
  pub last_seen_at : ℕ

-- `Session.Live`
unfoldable pub live : ℕ → Session → Bool
live now s = if is_some s.revoked_at then false else ltb now s.expires_at

abbrev pub Rows : Type 0
Rows = List Session

-- `WHERE user_id = $1 AND revoked_at IS NULL AND expires_at > NOW()`
unfoldable pub is_live_of : ℕ → String → Session → Bool
is_live_of now user_id s =
    s.user_id == user_id && (not (is_some s.revoked_at) && ltb now s.expires_at)

-- The same `AND id <> $2`
unfoldable pub is_peer : ℕ → String → String → Session → Bool
unfolding is_live_of
is_peer now user_id id s = is_live_of now user_id s && not (s.id == id)

-- `WHERE …`, keeping the order of the table.
unfoldable pub select : (Session → Bool) → Rows → Rows
select p [] = []
select p (s ∷ rows) = let rest = select p rows in if p s then s ∷ rest else rest

-- `ORDER BY created_at ASC, id ASC`
abbrev pub before : Session → Session → Bool
before s t = ltb s.created_at t.created_at || (s.created_at == t.created_at && str_lt s.id t.id)

unfoldable pub place : Session → Rows → Rows
place s [] = s ∷ []
place s (t ∷ ts) = let rest = place s ts in if before t s then t ∷ rest else s ∷ t ∷ ts

unfoldable pub order_by_age : Rows → Rows
unfolding place
order_by_age [] = []
order_by_age (s ∷ ss) = place s (order_by_age ss)

-- `UPDATE sessions SET revoked_at = NOW() WHERE id = ANY(ids) AND revoked_at IS NULL`
unfoldable pub revoke_ids : ℕ → List String → Rows → Rows
revoke_ids now ids [] = []
revoke_ids now ids (s ∷ rows) =
    let rest = revoke_ids now ids rows in
    if contains ids s.id && not (is_some s.revoked_at)
    then record s { revoked_at = some now } ∷ rest
    else s ∷ rest

-- Whether the primary key or the unique token hash is taken.
unfoldable pub taken : Session → Rows → Bool
taken s [] = false
taken s (t ∷ rows) = (t.id == s.id || t.session_token_hash == s.session_token_hash) || taken s rows

-- The arguments that the code refuses before it opens the transaction, and the `CHECK` on the mode.
abbrev pub is_complete : Session → Bool
is_complete s =
    not (s.id == "" || (s.user_id == "" || s.organization_id == ""))
    && (not (s.session_token_hash == "" || s.expires_at == 0)
        && contains ("password" ∷ "sso" ∷ "bootstrap" ∷ []) s.auth_mode)

-- The row as the database stores it.
abbrev pub stamped : ℕ → Session → Session
stamped now s = record s { created_at = now; revoked_at = none; last_seen_at = now }

-- The oldest peers that are over the cap once the new row is in.
unfoldable pub excess_peers : ℕ → ℕ → Session → Rows → Rows
unfolding select order_by_age is_peer
excess_peers now per_user_cap s rows =
    let live_others = count_if (is_peer now s.user_id s.id) rows in
    take (live_others + 1 - per_user_cap) (order_by_age (select (is_peer now s.user_id s.id) rows))

pub record Created : Type 0 where
  pub rows : Rows
  pub session : Session
  pub revoked_hashes : List String

-- `CreateSessionEnforcingCap`; a cap of 0 stands for any that is not positive.
unfoldable pub create_session_enforcing_cap : ℕ → Session → ℕ → Rows → Option Created
unfolding excess_peers revoke_ids taken
create_session_enforcing_cap now s per_user_cap rows =
    let rows1 = rows ++ stamped now s ∷ [] in
    let oldest = if per_user_cap == 0 then [] else excess_peers now per_user_cap s rows1 in
    if not (is_complete s) || taken s rows
    then none
    else some (record {
      rows = revoke_ids now (map (λ t. t.id) oldest) rows1;
      session = stamped now s;
      revoked_hashes = map (λ t. t.session_token_hash) oldest;
    })

unfoldable pub find_hash : String → Rows → Option Session
find_hash hash [] = none
find_hash hash (s ∷ rows) = if s.session_token_hash == hash then some s else find_hash hash rows

-- `GetSessionByTokenHash`
unfoldable pub get_session_by_token_hash : String → Rows → Option Session
unfolding find_hash
get_session_by_token_hash hash rows = if hash == "" then none else find_hash hash rows

-- `TouchSessionLastSeen`
unfoldable pub touch_session : ℕ → String → Rows → Rows
touch_session now id [] = []
touch_session now id (s ∷ rows) =
    let rest = touch_session now id rows in
    if s.id == id then record s { last_seen_at = now } ∷ rest else s ∷ rest

-- `RevokeSession`; `none` for an empty identifier.
unfoldable pub revoke_id : ℕ → String → Rows → Rows
revoke_id now id [] = []
revoke_id now id (s ∷ rows) =
    let rest = revoke_id now id rows in
    if s.id == id
    then record s { revoked_at = some (or_else s.revoked_at now) } ∷ rest
    else s ∷ rest

unfoldable pub revoke_session : ℕ → String → Rows → Option Rows
unfolding revoke_id
revoke_session now id rows = if id == "" then none else some (revoke_id now id rows)

unfoldable pub revoke_user : ℕ → String → Rows → Rows
unfolding is_live_of
revoke_user now user_id [] = []
revoke_user now user_id (s ∷ rows) =
    let rest = revoke_user now user_id rows in
    if is_live_of now user_id s then record s { revoked_at = some now } ∷ rest else s ∷ rest

-- `RevokeUserSessions`, with the hashes of the revoked rows.
unfoldable pub revoke_user_sessions : ℕ → String → Rows → Option (Rows × List String)
unfolding revoke_user select is_live_of
revoke_user_sessions now user_id rows =
    if user_id == ""
    then none
    else some (
      revoke_user now user_id rows,
      map (λ s. s.session_token_hash) (select (is_live_of now user_id) rows),
    )

-- `SweepExpiredSessions`
unfoldable pub sweep_sessions : ℕ → Rows → Rows
sweep_sessions older_than [] = []
sweep_sessions older_than (s ∷ rows) =
    let rest = sweep_sessions older_than rows in
    if ltb s.expires_at older_than
      || (is_some s.revoked_at && ltb (or_else s.revoked_at 0) older_than)
    then rest
    else s ∷ rest
