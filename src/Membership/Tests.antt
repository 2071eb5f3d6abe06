-- ===== src/Membership/Tests.antt =====
-- A small organization.
use axiaops.Common.{
  if◌then◌else◌, In, ◌==◌, string_eq, nat_eq, String, ◌≡◌, refl, inl, inr, true, none, some, List,
  [], ◌∷◌,
}
use axiaops.Authz.{allows, role_permissions}
use axiaops.Membership.{
  Membership, Rows, clash, consistent, owners, is_at, find, role_of, transferred,
  transfer_ownership,
}
use axiaops.Membership.Owners.{
  transfer_ownership_lem, Op, save, delete, transfer, apply_all, apply_all-owners,
}
use axiaops.Membership.Handlers.{Env, update_request, serve}
use axiaops.Membership.Access.{serve-keeps_Protected, serve_elevates_none}

abbrev row : String → String → String → Membership
row id user_id role = record {
  id = id;
  organization_id = "org";
  user_id = user_id;
  role = role;
  invited_by = "";
  provisioned_via = "manual";
}

abbrev rows : Rows
rows = row "m1" "ann" "owner" ∷ row "m2" "bob" "admin" ∷ row "m3" "eve" "admin" ∷ []

abbrev env : Env
env = record { trim = λ s. s; invitable = λ s. true; user_by_email = λ s. none }

transferred_rows :
    transfer_ownership "org" "bob" rows
    ≡ inr (row "m1" "ann" "admin" ∷ row "m2" "bob" "owner" ∷ row "m3" "eve" "admin" ∷ [])
unfolding transfer_ownership string_eq clash
transferred_rows = refl

transfer_ownership_lem_example :
    (transfer_ownership "org" "bob" rows ≡ inr (transferred "org" "m2" rows))
    × (find (is_at "org" "m2") (transferred "org" "m2" rows) ≡ some (row "m2" "bob" "owner"))
    × ((o : String)
        → owners o (transferred "org" "m2" rows) ≡ (if o == "org" then 1 else owners o rows))
    × (consistent (transferred "org" "m2" rows) ≡ true)
unfolding consistent find string_eq clash
transfer_ownership_lem_example =
    transfer_ownership_lem "org" "bob" rows (row "m2" "bob" "admin") refl refl refl

abbrev ops : List Op
ops =
    delete "org" "m1"
    ∷ transfer "org" "bob"
    ∷ delete "org" "m1"
    ∷ save "org" "m4" (row "" "dan" "owner")
    ∷ []

apply_all-owners_example :
    (consistent (apply_all ops rows) ≡ true) × (owners "org" (apply_all ops rows) ≡ 1)
unfolding consistent owners string_eq clash
apply_all-owners_example = apply_all-owners ops rows "org" refl refl

serve-keeps_Protected_example :
    In (row "m3" "eve" "admin") (serve env "org" "bob" (update_request "m3" "viewer") rows).0
unfolding consistent allows role_of string_eq clash role_permissions
serve-keeps_Protected_example =
    serve-keeps_Protected env "org" "bob" (update_request "m3" "viewer") rows
      (row "m3" "eve" "admin") refl refl (inr (inr (inl refl))) (refl, refl)

serve_elevates_none_example : In (row "m3" "eve" "admin") rows
unfolding serve allows role_of string_eq role_permissions
serve_elevates_none_example =
    serve_elevates_none env "org" "bob" (update_request "m3" "viewer") rows (row "m3" "eve" "admin")
      refl (inr (inr (inl refl))) refl
