-- ===== src/Membership/Access.antt =====
-- What a caller may do to the rows of others through the endpoints.
use axiaops.Common.{
  Bool-cases, In, string_eq, nat_eq, String, ◌≡◌, ap, ◌∙◌, ◌⊎◌, inl, inr, Bool, true, false, [],
  ◌∷◌, ◌++◌, arith, Option-cases,
}
use axiaops.Authz.{allows}
use axiaops.Membership.{
  Membership, Rows, consistent, set_role, remove, get_membership, role_of, is_at,
}
use axiaops.Membership.Handlers.{
  Env, is_elevated, create_membership, update_role, transfer, Request, create_request,
  update_request, delete_request, transfer_request, serve,
}
use axiaops.Authz.Inherit.{allows-transfer}
use axiaops.Membership.Effects.{
  Protected, create_keeps, update_keeps, delete_keeps, require-cases, require_refused,
  create_unknown, create-rows, invited, create_elevated, update-rows, delete-rows,
}

-- In a table that keeps its constraints, a caller whose role does not manage admins never changes
-- or removes the row of an owner or an admin other than the caller, by any request to the
-- endpoints that create, update, delete or transfer memberships.
pub serve-keeps_Protected :
    (env : Env) (tid uid : String) (req : Request) (rows : Rows) (m : Membership)
    → consistent rows ≡ true
    → allows (role_of tid uid rows) "members:manage_admin" ≡ false
    → In m rows
    → Protected uid m
    → In m (serve env tid uid req rows).0
unfolding serve
serve-keeps_Protected env tid uid (create_request new_id email role) rows m c a i p =
    elim (require-cases "members:invite" tid uid rows
      (create_membership env tid uid new_id email role rows)) [
        | inl refused ↦ rw refused i
        | inr passed ↦ rw passed (create_keeps env tid uid new_id email role rows m i)
      ]
serve-keeps_Protected env tid uid (update_request id role) rows m c a i p =
    elim (require-cases "members:manage_basic" tid uid rows
      (update_role env tid uid id role rows)) [
        | inl refused ↦ rw refused i
        | inr passed ↦ rw passed (update_keeps env tid uid id role rows m c a i p.0)
      ]
serve-keeps_Protected env tid uid (delete_request id) rows m c a i p =
    delete_keeps tid uid id rows m c a i p
serve-keeps_Protected env tid uid (transfer_request to) rows m c a i p =
    rw
      (require_refused "organization:transfer" tid uid rows (transfer env tid to rows)
        (allows-transfer (role_of tid uid rows) ∙ a))
      i

In-unset_role :
    (p : Membership → Bool) (role : String) (rows : Rows) (m : Membership)
    → In m (set_role p role rows)
    → In m rows ⊎ (m.role ≡ role)
unfolding set_role
In-unset_role p role [] m i = inl i
In-unset_role p role (r ∷ rows) m i = elim (Bool-cases (p r)) [
  | inl hit ↦ elim (rw hit at i) [
    | inl e ↦ inr (ap (λ n. n.role) e)
    | inr j ↦ elim (In-unset_role p role rows m j) [ inl k ↦ inl (inr k) | inr e ↦ inr e ]
  ]
  | inr miss ↦ elim (rw miss at i) [
    | inl e ↦ inl (inl e)
    | inr j ↦ elim (In-unset_role p role rows m j) [ inl k ↦ inl (inr k) | inr e ↦ inr e ]
  ]
]

In-unremoved :
    (p : Membership → Bool) (rows : Rows) (m : Membership) → In m (remove p rows) → In m rows
unfolding remove
In-unremoved p [] m i = i
In-unremoved p (r ∷ rows) m i = elim (Bool-cases (p r)) [
  | inl hit ↦ inr (In-unremoved p rows m (rw hit at i))
  | inr miss ↦ elim (rw miss at i) [ inl e ↦ inl e | inr j ↦ inr (In-unremoved p rows m j) ]
]

In-unappended : (rows : Rows) (n m : Membership) → In m (rows ++ n ∷ []) → In m rows ⊎ (m ≡ n)
In-unappended [] n m (inl e) = inr e
In-unappended [] n m (inr i) = elim i [ ]
In-unappended (r ∷ rows) n m (inl e) = inl (inl e)
In-unappended (r ∷ rows) n m (inr i) = elim (In-unappended rows n m i) [
  | inl j ↦ inl (inr j)
  | inr e ↦ inr e
]

update_elevated :
    (env : Env) (tid uid id role : String) (rows : Rows)
    → allows (role_of tid uid rows) "members:manage_admin" ≡ false
    → is_elevated (env.trim role) ≡ true
    → (update_role env tid uid id role rows).0 ≡ rows
unfolding update_role get_membership
update_elevated env tid uid id role rows a e = ground arith

-- A caller whose role does not manage admins never makes anyone an admin or an owner: each row of
-- these roles after a request to the endpoints that create, update, delete or transfer
-- memberships stood in the table before it.
pub serve_elevates_none :
    (env : Env) (tid uid : String) (req : Request) (rows : Rows) (m : Membership)
    → allows (role_of tid uid rows) "members:manage_admin" ≡ false
    → In m (serve env tid uid req rows).0
    → is_elevated m.role ≡ true
    → In m rows
unfolding serve
serve_elevates_none env tid uid (create_request new_id email role) rows m a i p =
    elim (require-cases "members:invite" tid uid rows
      (create_membership env tid uid new_id email role rows)) [
        | inl refused ↦ rw refused at i
        | inr passed ↦ elim (Option-cases (env.user_by_email (env.trim email))) [
          | inl absent ↦ rw (passed, create_unknown env tid uid new_id email role rows absent) at i
          | inr (u, at) ↦ elim (create-rows env tid uid new_id email role u rows at) [
            | inl same ↦ rw (passed, same) at i
            | inr more ↦
                elim (In-unappended rows (invited tid uid new_id (env.trim role) u) m
                  (rw (passed, more) at i)) [
                    | inl j ↦ j
                    | inr e ↦
                        rw
                          (passed, create_elevated env tid uid new_id email role rows a (rw e at p))
                          at i
                  ]
          ]
        ]
      ]
serve_elevates_none env tid uid (update_request id role) rows m a i p =
    elim (require-cases "members:manage_basic" tid uid rows
      (update_role env tid uid id role rows)) [
        | inl refused ↦ rw refused at i
        | inr passed ↦ elim (update-rows env tid uid id role rows) [
          | inl same ↦ rw (passed, same) at i
          | inr changed ↦
              elim (In-unset_role (is_at tid id) (env.trim role) rows m
                (rw (passed, changed) at i)) [
                  | inl j ↦ j
                  | inr e ↦ rw (passed, update_elevated env tid uid id role rows a (rw e at p)) at i
                ]
        ]
      ]
serve_elevates_none env tid uid (delete_request id) rows m a i p =
    elim (delete-rows tid uid id rows) [
      | inl same ↦ rw same at i
      | inr changed ↦ In-unremoved (is_at tid id) rows m (rw changed at i)
    ]
serve_elevates_none env tid uid (transfer_request to) rows m a i p =
    rw
      (require_refused "organization:transfer" tid uid rows (transfer env tid to rows)
        (allows-transfer (role_of tid uid rows) ∙ a))
      at i
