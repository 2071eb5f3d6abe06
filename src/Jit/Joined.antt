-- ===== src/Jit/Joined.antt =====
-- Whoever a login provisions is a member.
use axiaops.Common.{
  Bool-cases, ◌==◌, string_eq, nat_eq, String, ◌≡◌, refl, sym, inl, inr, true, ◌||◌, Option, none,
  some, [], ◌∷◌, ◌++◌, arith,
}
use mathlib.Core.Path.{subst}
use axiaops.Membership.{
  membership_not_found, last_owner, storage_failed, Membership, StoreError, Rows, find, set_role,
  is_of, is_at, insert_row, update_membership_role, save_membership, Outcome, membership_exists,
}
use axiaops.Membership.Lookup.{find-set_role}
use axiaops.Jit.Provision.{
  JitOutcome, reconcile, provision, saved_or, get_membership_by_org_user, jit_membership,
}

abbrev pub IsMember : String → String → Rows → Type 0
IsMember org user_id rows = (m : Membership) × (find (is_of org user_id) rows ≡ some m)

IsMember-append :
    (org user_id : String) (rows : Rows) (m : Membership)
    → is_of org user_id m ≡ true
    → IsMember org user_id (rows ++ m ∷ [])
unfolding find
IsMember-append org user_id [] m h = (m, rw h refl)
IsMember-append org user_id (r ∷ rows) m h = elim (Bool-cases (is_of org user_id r)) [
  | inl e ↦ (r, rw e refl)
  | inr e ↦ (let (m', f) = IsMember-append org user_id rows m h in (m', rw e f))
]

pub insert_row-IsMember :
    (taken : StoreError) (org user_id : String) (m : Membership) (rows rows' : Rows)
    → is_of org user_id m ≡ true
    → insert_row taken org m rows ≡ inr rows'
    → IsMember org user_id rows'
insert_row-IsMember taken org user_id m rows rows' h e =
    let same : rows ++ m ∷ [] ≡ rows' = ground (arith, e) in
    subst (IsMember org user_id) same (IsMember-append org user_id rows m h)

module _ (org user_id role : String) where
  reconcile-IsMember :
      (rows rows' : Rows) (found : Option Membership) (out : JitOutcome)
      → find (is_of org user_id) rows ≡ found
      → reconcile org role rows found ≡ inr (out, rows')
      → IsMember org user_id rows'
  unfolding reconcile update_membership_role
  reconcile-IsMember rows rows' none out f e = cc
  reconcile-IsMember rows rows' (some m) out f e =
      elim (Bool-cases (m.role == "owner" || m.role == role)) [
        | inl b ↦ (let same : rows ≡ rows' = ground (arith, b, e) in (m, rw (sym same) f))
        | inr b ↦ elim (Bool-cases (m.provisioned_via == "jit")) [
          | inr v ↦ (let same : rows ≡ rows' = ground (arith, b, v, e) in (m, rw (sym same) f))
          | inl v ↦
              (let same : set_role (is_at org m.id) role rows ≡ rows' = ground (arith, b, v, e) in
                (
                  record m { role = role },
                  rw (sym same) (find-set_role org user_id m.id role rows m f refl),
                ))
        ]
      ]

  saved_or-IsMember :
      (rows rows' : Rows) (saved : Outcome) (out : JitOutcome)
      → ((made : Rows) → saved ≡ inr made → IsMember org user_id made)
      → saved_or org user_id role rows saved ≡ inr (out, rows')
      → IsMember org user_id rows'
  unfolding saved_or get_membership_by_org_user
  saved_or-IsMember rows rows' (inr made) out k e =
      (let same : made ≡ rows' = ground (arith, e) in
        subst (IsMember org user_id) same (k made refl))
  saved_or-IsMember rows rows' (inl membership_exists) out k e =
      reconcile-IsMember rows rows' (find (is_of org user_id) rows) out refl e
  saved_or-IsMember rows rows' (inl membership_not_found) out k e = cc
  saved_or-IsMember rows rows' (inl last_owner) out k e = cc
  saved_or-IsMember rows rows' (inl storage_failed) out k e = cc

  pub provision-IsMember :
      (new_id : String) (rows rows' : Rows) (out : JitOutcome)
      → provision org user_id role new_id rows ≡ inr (out, rows')
      → IsMember org user_id rows'
  unfolding provision save_membership
  provision-IsMember new_id rows rows' out e =
      let saved = save_membership org new_id (jit_membership org user_id role new_id) rows in
      saved_or-IsMember rows rows' saved out
        (λ made s. insert_row-IsMember membership_exists org user_id _ rows made (ground arith) s)
        (ground (arith, e))
