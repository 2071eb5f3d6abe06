-- ===== src/Login/Orgs/Tests.antt =====
-- A user of two organizations chooses one, switches to the other and logs out.
use axiaops.Common.{
  str_lt, compare-flip, str_lt_trans, str_lt_asym, str_lt_irrefl, str_lt_total, ltb, leb,
  if◌then◌else◌, Bool-cases, Option-cases, is_some, or_else, length, take, count_if, All,
  length-append, In, In-append_left, In-append_right, In-kept, Eq, ◌==◌, contains, string_eq,
  nat_eq, str_contains, has_prefix, ℕ, zero, suc, ◌+◌, ◌-◌, ◌*◌, ◌/◌, ◌%◌, ◌^◌, ◌≤◌, ◌<◌, String,
  ◌<>◌, ◌≡◌, refl, sym, ap, ◌∙◌, ◌≢◌, ◌↔◌, ◌⊎◌, inl, inr, Bool, true, false, not, ◌&&◌, ◌||◌,
  Option, none, some, List, [], ◌∷◌, ◌++◌, map, arith,
}
use axiaops.RateLimit.{new_login_rate_limiter}
use axiaops.Membership.{Membership}
use axiaops.Session.{Session}
use axiaops.Session.Manager.{State, validate_session}
use axiaops.Login.{LoginState, logged_in, new_session, Draw}
use axiaops.Login.Tests.{ann, member, verify, same, organization, state, draw, request}
use axiaops.Login.Orgs.{
  select_org, SwitchAnswer, not_a_member, unchanged, switched, moved_session, switch_org, logout,
}
use axiaops.Login.Orgs.Chosen.{select_org-logged_in}
use axiaops.Login.Orgs.LoggedOut.{logout-validate_session}
use axiaops.Login.Orgs.Moved.{switch_org-SwitchedFrom}

abbrev guest : Membership
guest = record {
  id = "m2";
  organization_id = "other";
  user_id = "u1";
  role = "viewer";
  invited_by = "";
  provisioned_via = "manual";
}

abbrev two : LoginState {0} Unit
two = record (state (ann ∷ [])) { memberships = member ∷ guest ∷ [] }

abbrev session : Session
session = new_session draw ann guest

chosen :
    (select_org same same verify new_login_rate_limiter draw "other" (request "secret") two).1
    ≡ logged_in ann guest session
unfolding select_org string_eq nat_eq axiaops.Common.Dict.lookup axiaops.Common.Dict.insert
chosen = refl

select_org-logged_in_example : verify "secret" ann.password_hash ≡ true
select_org-logged_in_example =
    (select_org-logged_in same same verify new_login_rate_limiter draw "other" (request "secret")
      ann guest session two chosen).2.2

-- The token of the first session, and the draw of the second.
abbrev hash : String → String
hash token = token

abbrev opened : State
opened = record { table = session ∷ []; cache = none }

abbrev next : Draw
next = record draw { now = 200; session_id = "s2"; token_hash = "token2"; expires_at = 1000 }

abbrev answer : String → State × SwitchAnswer
answer target = switch_org hash organization (member ∷ guest ∷ []) next "token" target opened

moved : (answer "org").1 ≡ switched member (moved_session next session "org")
unfolding switch_org string_eq nat_eq
moved = refl

stays : (answer "other").1 ≡ unchanged guest
unfolding switch_org string_eq nat_eq
stays = refl

refused : (answer "third").1 ≡ not_a_member
unfolding switch_org string_eq nat_eq
refused = refl

switch_org-SwitchedFrom_example : member.organization_id ≡ "org"
switch_org-SwitchedFrom_example =
    (switch_org-SwitchedFrom hash organization (member ∷ guest ∷ []) next "org" member
      (moved_session next session "org") "token" opened moved).2.3

logout-validate_session_example :
    (validate_session hash draw.faults 300 "token" (logout hash draw.faults 200 "token" opened)).1
    ≡ none
unfolding string_eq axiaops.Session.get_session_by_token_hash
logout-validate_session_example =
    logout-validate_session hash draw.faults 200 "token" opened session refl refl refl refl
      draw.faults 300
