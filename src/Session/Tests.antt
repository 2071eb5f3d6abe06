-- ===== src/Session/Tests.antt =====
-- A user with sessions.
use axiaops.Common.{
  ltb, if◌then◌else◌, is_some, or_else, count_if, In, string_eq, nat_eq, ℕ, ◌+◌, String, ◌<>◌, ◌≡◌,
  refl, true, false, none, some, [], ◌∷◌, map,
}
use axiaops.Common.Dict.{lookup}
use axiaops.Session.{
  Session, live, Rows, is_live_of, taken, stamped, Created, create_session_enforcing_cap, find_hash,
}
use axiaops.Session.Selection.{distinct_ids, has_id}
use axiaops.Session.Cap.{create_session_enforcing_cap_lem}
use axiaops.Session.Manager.{Faults, State, validate_session, revoke}
use axiaops.Session.Revoked.{validate_session-live, revoke_refuses}

abbrev session : String → ℕ → Session
session id created = record {
  id = id;
  user_id = "ann";
  organization_id = "org";
  auth_mode = "password";
  session_token_hash = "hash-" <> id;
  created_at = created;
  expires_at = 1000;
  revoked_at = none;
  last_seen_at = created;
}

abbrev rows : Rows
rows = session "s2" 20 ∷ session "s1" 10 ∷ session "s3" 30 ∷ []

revoked_oldest :
    map
      (λ s. is_some s.revoked_at)
      (or_else
        (create_session_enforcing_cap 50 (session "s4" 0) 2 rows)
        (record { rows = []; session = session "" 0; revoked_hashes = [] })).rows
    ≡ true ∷ true ∷ false ∷ false ∷ []
unfolding create_session_enforcing_cap string_eq nat_eq
revoked_oldest = refl

create_session_enforcing_cap_lem_example :
    (r : Created) × (create_session_enforcing_cap 50 (session "s4" 0) 2 rows ≡ some r)
    × In (stamped 50 (session "s4" 0)) r.rows
    × (let n = count_if (is_live_of 50 "ann") rows in
        count_if (is_live_of 50 "ann") r.rows ≡ (if ltb n 2 then n + 1 else 2))
unfolding taken distinct_ids has_id string_eq nat_eq
create_session_enforcing_cap_lem_example =
    create_session_enforcing_cap_lem 50 (session "s4" 0) 2 rows refl refl refl refl refl

abbrev hash_token : String → String
hash_token token = "hash-" <> token

abbrev all_work : Faults
all_work = record { get_works = true; put_works = true; delete_works = true }

abbrev no_delete : Faults
no_delete = record { get_works = true; put_works = true; delete_works = false }

abbrev cached : State
cached = record {
  table = rows;
  cache = some (record {
    items = ("axiaops:session:hash-s1", record { value = session "s1" 10; expires_at = 900 }) ∷ [];
    counters = [];
  });
}

validate_session-live_test : live 60 (session "s1" 10) ≡ true
unfolding validate_session string_eq lookup
validate_session-live_test =
    validate_session-live hash_token all_work 60 "s1" cached (session "s1" 10) refl

revoke_refuses_example :
    (st' : State) × (revoke all_work 60 "s1" "hash-s1" cached ≡ some st')
    × ((g : Faults) (later : ℕ) → (validate_session hash_token g later "s1" st').1 ≡ none)
unfolding find_hash string_eq
revoke_refuses_example =
    revoke_refuses hash_token all_work 60 "s1" cached (session "s1" 10) refl refl refl refl

-- Where the delete fails, the cached copy of a session that is revoked is still accepted.
stale :
    (validate_session hash_token all_work 70 "s1"
      (or_else (revoke no_delete 60 "s1" "hash-s1" cached) cached)).1
    ≡ some (session "s1" 10)
unfolding validate_session revoke string_eq lookup
stale = refl
