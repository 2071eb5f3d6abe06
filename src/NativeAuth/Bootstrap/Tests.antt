-- ===== src/NativeAuth/Bootstrap/Tests.antt =====
-- An install token that is used twice.
use axiaops.Common.{string_eq, nat_eq, String, ◌≡◌, refl, none, List, [], ◌∷◌}
use axiaops.Membership.{consistent}
use axiaops.NativeAuth.Bootstrap.{Tables, BootstrapConsume}
use axiaops.NativeAuth.Bootstrap.Sealed.{Op, mint, consume, calls, SetUpOnce, calls-SetUpOnce}

abbrev fresh : Tables
fresh = record {
  organizations = [];
  users = [];
  memberships = [];
  sessions = [];
  bootstrap_state = none;
}

abbrev inputs : String → BootstrapConsume
inputs org = record {
  token_hash = "hash";
  organization_id = org;
  organization_name = "Org";
  user_id = "u1";
  user_email = "ann@example.com";
  user_name = "Ann";
  user_password_hash = "x";
  session_id = "s1";
  session_token_hash = "t1";
  session_expires_at = 100;
}

abbrev same : String → String
same text = text

abbrev race : List Op
race =
    mint "hash" "pod-1"
    ∷ mint "other" "pod-2"
    ∷ consume 10 "m1" (inputs "org")
    ∷ consume 11 "m2" (inputs "org2")
    ∷ mint "hash" "pod-1"
    ∷ []

one_org : (calls same race fresh).1 ≡ "org" ∷ []
unfolding calls string_eq nat_eq
one_org = refl

calls-SetUpOnce_example : SetUpOnce (calls same race fresh)
unfolding consistent
calls-SetUpOnce_example = calls-SetUpOnce same race fresh refl
