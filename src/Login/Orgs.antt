-- ===== src/Login/Orgs.antt =====
-- The organization of a login with several: `selectOrg` and `switchOrg` of
-- services/api/internal/auth/handler.go, with `RotateSessionForOrg` of
-- services/api/internal/auth/session.go, and `logout`. The identifier in a request is trimmed; the
-- session of `switchOrg` and of `logout` is that of the cookie's token.
pub mod Chosen
pub mod LoggedOut
pub mod Moved
pub mod Tests
use axiaops.Common.{
  str_lt, compare-flip, str_lt_trans, str_lt_asym, str_lt_irrefl, str_lt_total, ltb, leb,
  if◌then◌else◌, Bool-cases, Option-cases, is_some, or_else, length, take, count_if, All,
  length-append, In, In-append_left, In-append_right, In-kept, Eq, ◌==◌, contains, string_eq,
  nat_eq, str_contains, has_prefix, ℕ, zero, suc, ◌+◌, ◌-◌, ◌*◌, ◌/◌, ◌%◌, ◌^◌, ◌≤◌, ◌<◌, String,
  ◌<>◌, ◌≡◌, refl, sym, ap, ◌∙◌, ◌≢◌, ◌↔◌, ◌⊎◌, inl, inr, Bool, true, false, not, ◌&&◌, ◌||◌,
  Option, none, some, List, [], ◌∷◌, ◌++◌, map, arith,
}
use axiaops.Membership.{Membership}
use axiaops.NativeAuth.{User}
use axiaops.RateLimit.{LoginRateLimiter}
use axiaops.Session.{Session, get_session_by_token_hash}
use axiaops.Session.Manager.{Faults, State, validate_session, revoke, mint_session}
use axiaops.Login.{
  LoginRequest, Draw, LoginState, LoginAnswer, invalid_credentials, memberships_of, new_session,
  with_session, gated,
}

-- The first membership in the organization.
unfoldable pub find_org : String → List Membership → Option Membership
find_org organization_id [] = none
find_org organization_id (m ∷ ms) =
    if m.organization_id == organization_id then some m else find_org organization_id ms

module _ {ℓ} {V : Type ℓ} (d : Draw) where
  -- What follows the search of the memberships.
  abbrev pub enter_chosen : LoginState V → User → Option Membership → LoginState V × LoginAnswer
  enter_chosen st u none = (st, invalid_credentials)
  enter_chosen st u (some m) =
      with_session st u m
        (mint_session d.faults d.now d.per_user_cap (new_session d u m) st.sessions)

  -- The end of `selectOrg`.
  unfoldable pub choose :
      String → LoginState V → User → List Membership → LoginState V × LoginAnswer
  unfolding find_org mint_session
  choose organization_id st u ms = enter_chosen st u (find_org organization_id ms)

module _ {ℓ} {V : Type ℓ} (lower : String → String) (hash_email : String → String)
    (verify : String → String → Bool) (l : LoginRateLimiter) (d : Draw) where
  -- `selectOrg`
  unfoldable pub select_org : String → LoginRequest → LoginState V → LoginState V × LoginAnswer
  unfolding gated choose
  select_org organization_id r st =
      gated lower hash_email verify l d (choose d organization_id)
        (r.email == "" || (r.password == "" || organization_id == "")) r st

abbrev pub and_mint : Draw → Session → Option State → Option (State × Session)
and_mint d s none = none
and_mint d s (some st) = mint_session d.faults d.now d.per_user_cap s st

-- `RotateSessionForOrg`; `none` is an error, which may follow the revocation.
unfoldable pub rotate_session_for_org :
    Draw → String → String → Session → State → Option (State × Session)
unfolding revoke mint_session
rotate_session_for_org d current_id current_hash s st =
    if current_id == ""
    then none
    else and_mint d s (revoke d.faults d.now current_id current_hash st)

pub data SwitchAnswer : Type 0 where
  no_session organization_required switch_failed not_a_member : SwitchAnswer
  unchanged : Membership → SwitchAnswer
  switched : Membership → Session → SwitchAnswer

-- The session of the new organization: its user, and the way it was opened, stay.
abbrev pub moved_session : Draw → Session → String → Session
moved_session d s organization_id = record s {
  id = d.session_id;
  organization_id = organization_id;
  session_token_hash = d.token_hash;
  created_at = d.now;
  expires_at = d.expires_at;
  revoked_at = none;
  last_seen_at = d.now;
}

-- What the sessions are after an error of the rotation: it may have revoked the old one.
abbrev pub after_failure : Draw → Session → State → State
after_failure d s st =
    if s.id == "" then st else or_else (revoke d.faults d.now s.id s.session_token_hash st) st

abbrev pub rotated :
    Draw → Session → Membership → State → Option (State × Session) → State × SwitchAnswer
rotated d s m st none = (after_failure d s st, switch_failed)
rotated d s m st (some (sessions, made)) = (sessions, switched m made)

abbrev pub switch_found : Draw → String → Session → State → Option Membership → State × SwitchAnswer
switch_found d target s st none = (st, not_a_member)
switch_found d target s st (some m) =
    if target == s.organization_id
    then (st, unchanged m)
    else rotated d s m st
        (rotate_session_for_org d s.id s.session_token_hash (moved_session d s target) st)

-- The join with the organizations.
unfoldable pub in_organizations : (String → Option String) → List Membership → List Membership
in_organizations organization_name [] = []
in_organizations organization_name (m ∷ ms) =
    let rest = in_organizations organization_name ms in
    if is_some (organization_name m.organization_id) then m ∷ rest else rest

-- `ListUserMemberships`; `none` is an error of the query.
unfoldable pub user_memberships :
    Bool → (String → Option String) → String → List Membership → Option (List Membership)
unfolding in_organizations memberships_of
user_memberships works organization_name user_id table =
    if user_id == ""
    then some []
    else if not works
    then none
    else some (in_organizations organization_name (memberships_of user_id table))

abbrev pub switch_listed :
    Draw → String → Session → State → Option (List Membership) → State × SwitchAnswer
switch_listed d target s st none = (st, switch_failed)
switch_listed d target s st (some ms) = switch_found d target s st (find_org target ms)

module _ (hash_token : String → String) (organization_name : String → Option String)
    (table : List Membership) (d : Draw) where
  abbrev pub switch_for : String → State × Option Session → State × SwitchAnswer
  switch_for target (st, none) = (st, no_session)
  switch_for target (st, some s) =
      if target == ""
      then (st, organization_required)
      else switch_listed d target s st
          (user_memberships d.join_query_works organization_name s.user_id table)

  -- `switchOrg`
  unfoldable pub switch_org : String → String → State → State × SwitchAnswer
  unfolding validate_session rotate_session_for_org revoke find_org user_memberships
  switch_org token target st =
      if token == ""
      then (st, no_session)
      else switch_for target (validate_session hash_token d.faults d.now token st)

abbrev pub logged_out : Faults → ℕ → State → Option Session → State
logged_out f now st none = st
logged_out f now st (some s) = or_else (revoke f now s.id s.session_token_hash st) st

-- `logout`, on the sessions.
unfoldable pub logout : (String → String) → Faults → ℕ → String → State → State
unfolding get_session_by_token_hash revoke
logout hash_token f now token st =
    if token == ""
    then st
    else logged_out f now st (get_session_by_token_hash (hash_token token) st.table)
