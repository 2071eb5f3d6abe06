-- ===== src/NativeAuth/Tests.antt =====
-- A reset token that is redeemed twice.
use axiaops.Common.{string_eq, nat_eq, ◌≡◌, refl, none, some, List, [], ◌∷◌}
use axiaops.NativeAuth.{User, Store, password_reset_not_found}
use axiaops.NativeAuth.Resets.{
  Op, create, redeem, look, done, failed, redeemed, password, spec_results, step, results, distinct,
  spec_of,
}
use axiaops.NativeAuth.Simulated.{results-spec_results}

abbrev ann : User
ann = record {
  id = "u1";
  organization_id = "org";
  external_id = "native:u1";
  email = "ann@example.com";
  name = "Ann";
  password_hash = "old";
  password_set_at = none;
}

abbrev store : Store
store = record { users = ann ∷ []; resets = [] }

abbrev calls : List Op
calls =
    create "r1" "u1" "org" "hash" "" 100
    ∷ redeem 50 "hash" "new"
    ∷ redeem 60 "hash" "newer"
    ∷ look "u1"
    ∷ []

once :
    results calls store
    ≡ done ∷ redeemed "u1" "org" ∷ failed password_reset_not_found ∷ password (some "new") ∷ []
unfolding results step string_eq nat_eq
once = refl

results-spec_results_example : results calls store ≡ spec_results calls (spec_of store)
unfolding distinct
results-spec_results_example = results-spec_results calls store refl
