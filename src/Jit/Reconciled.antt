-- ===== src/Jit/Reconciled.antt =====
-- A provisioned login leaves the user a member, and every row that it may not touch as it was.
use axiaops.Common.{
  if◌then◌else◌, Bool-cases, Option-cases, is_some, In, In-append_left, ◌==◌, string_eq, nat_eq,
  String, ◌≡◌, refl, ap, ◌∙◌, ◌⊎◌, inl, inr, Bool, true, false, not, ◌&&◌, ◌||◌, none, some, [],
  ◌∷◌, ◌++◌, arith,
}
use axiaops.Common.Dict.{lookup}
use axiaops.Membership.{
  Membership, Rows, StoreError, is_owner, violates, consistent, owners, is_at, is_of, find,
  set_role, valid_role, save_membership, update_membership_role, insert_row,
}
use axiaops.Membership.Table.{
  consistent-append, owners-append, owners-set_role, find-holds, consistent-keyed, keyed-consistent,
  keyed-set_role, owners-le,
}
use axiaops.Membership.Owners.{find-is_at}
use axiaops.Membership.Lookup.{
  absent-violates, present-violates, find-append, In-find, In-set_role, find-set_role,
}
use axiaops.Jit.{role_priority}
use axiaops.Jit.Provision.{
  JitOutcome, get_membership_by_org_user, jit_membership, updated_or, reconcile, saved_or,
  provision,
}

-- A row that a login of the user may change: the user's own, placed by a login, and no owner's.
abbrev pub reconcilable : String → String → Membership → Bool
reconcilable org user_id m = is_of org user_id m && (m.provisioned_via == "jit" && not (is_owner m))

-- The rows after a login with a role: the constraints hold; every organization keeps its number
-- of owners; a row that the login may not change stands as it was; and the user is a member, with
-- the role, or with the row of before that may not be changed.
abbrev pub Reconciled : String → String → String → Rows → Rows → Type 0
Reconciled org user_id role rows rows' =
    (consistent rows' ≡ true)
    × ((o : String) → owners o rows' ≡ owners o rows)
    × ((m : Membership) → In m rows → reconcilable org user_id m ≡ false → In m rows')
    × ((m : Membership) × (find (is_of org user_id) rows' ≡ some m)
        × ((m.role ≡ role)
            ⊎ ((find (is_of org user_id) rows ≡ some m) × (reconcilable org user_id m ≡ false))))

no_owner :
    ◌==◌ {A = String} "owner" "viewer"
      || ◌==◌ {A = String} "owner" "member"
      || ◌==◌ {A = String} "owner" "admin"
    ≡ false
unfolding string_eq
no_owner = refl

-- The roles that a login may give are valid, and not the owner's.
prioritized :
    (role : String)
    → is_some (lookup role role_priority) ≡ true
    → (valid_role role ≡ true) × (role == "owner" ≡ false)
unfolding lookup
prioritized role h = (ground (arith, no_owner), ground (arith, no_owner))

module _ (org user_id role new_id : String) (rows : Rows) (c : consistent rows ≡ true)
    (known : is_some (lookup role role_priority) ≡ true) (org_named : (org == "") ≡ false)
    (user_named : (user_id == "") ≡ false) where
  abbrev made : Membership
  made = jit_membership org user_id role new_id

  provision-saved :
      provision org user_id role new_id rows
      ≡ saved_or org user_id role rows (save_membership org new_id made rows)
  unfolding provision
  provision-saved = rw ((prioritized role known).1, known, org_named, user_named) refl

  made_defaults :
      record made {
        id = if new_id == "" then new_id else new_id;
        provisioned_via = if ◌==◌ {A = String} "jit" "" then "manual" else "jit";
      }
      ≡ made
  unfolding string_eq
  made_defaults = elim (Bool-cases (new_id == "")) [ inl e ↦ rw e refl | inr e ↦ rw e refl ]

  save_membership-made :
      save_membership org new_id made rows ≡ insert_row StoreError.membership_exists org made rows
  unfolding save_membership
  save_membership-made = ap (λ m. insert_row StoreError.membership_exists org m rows) made_defaults

  insert_row-made :
      insert_row StoreError.membership_exists org made rows
      ≡ (if violates made rows then inl StoreError.membership_exists else inr (rows ++ made ∷ []))
  insert_row-made =
      let refused : (org == "" || (not (org == org) || not (valid_role role))) ≡ false =
        ground (arith, prioritized role known) in
      rw refused refl

  saved_new :
      violates made rows ≡ false → save_membership org new_id made rows ≡ inr (rows ++ made ∷ [])
  saved_new v = save_membership-made ∙ insert_row-made ∙ rw v refl

  saved_twice :
      violates made rows ≡ true
      → save_membership org new_id made rows ≡ inl StoreError.membership_exists
  saved_twice v = save_membership-made ∙ insert_row-made ∙ rw v refl

  created-Reconciled :
      violates made rows ≡ false
      → find (is_of org user_id) rows ≡ none
      → Reconciled org user_id role rows (rows ++ made ∷ [])
  created-Reconciled v f = (
    consistent-append rows made c v,
    λ o. ground (arith, owners-append o rows made, prioritized role known),
    λ m h k. In-append_left m rows (made ∷ []) h,
    (made, find-append (is_of org user_id) rows made f (ground arith), inl refl),
  )

  kept-Reconciled :
      (e : Membership)
      → find (is_of org user_id) rows ≡ some e
      → (e.role ≡ role) ⊎ (reconcilable org user_id e ≡ false)
      → Reconciled org user_id role rows rows
  kept-Reconciled e f why = (
    c,
    λ o. refl,
    λ m h k. h,
    (e, f, elim why [ inl same ↦ inl same | inr kept ↦ inr (f, kept) ]),
  )

  module _ (e : Membership) (f : find (is_of org user_id) rows ≡ some e) where
    abbrev changed : Rows
    changed = set_role (is_at org e.id) role rows

    owners-changed : is_owner e ≡ false → (o : String) → owners o changed ≡ owners o rows
    owners-changed n o = ground (
      arith,
      owners-set_role org e.id role rows o e,
      find-is_at org user_id rows e,
      prioritized role known,
    )

    changed-consistent : is_owner e ≡ false → consistent changed ≡ true
    changed-consistent n =
        keyed-consistent changed
          (keyed-set_role (is_at org e.id) role rows ∙ consistent-keyed rows c)
          (λ o. ground (arith, owners-changed n o, owners-le o rows))

    changed-Reconciled :
        reconcilable org user_id e ≡ true → Reconciled org user_id role rows changed
    changed-Reconciled ours =
        let n : is_owner e ≡ false = ground arith in
        (
          changed-consistent n,
          owners-changed n,
          λ m h k. elim (Bool-cases (is_at org e.id m)) [
            | inl at ↦
                (let of_m = In-find org m rows c h (ground arith) in
                  let of_e = find-is_at org user_id rows e c f in ground (arith, of_m, of_e))
            | inr other ↦ In-set_role (is_at org e.id) role m rows h other
          ],
          (record e { role = role }, find-set_role org user_id e.id role rows e f refl, inl refl),
        )

    update-changed : is_owner e ≡ false → update_membership_role org e.id role rows ≡ inr changed
    unfolding update_membership_role
    update-changed n =
        ground (arith, find-is_at org user_id rows e, changed-consistent n, prioritized role known)

    -- What the call makes of the row that it finds.
    reconcile-Reconciled :
        (out : JitOutcome) × (rows' : Rows) × (reconcile org role rows (some e) ≡ inr (out, rows'))
        × Reconciled org user_id role rows rows'
    unfolding reconcile
    reconcile-Reconciled = elim (Bool-cases (e.role == "owner" || e.role == role)) [
      | inl stays ↦ (
        JitOutcome.noop,
        rows,
        rw stays refl,
        kept-Reconciled e f (elim (Bool-cases (e.role == role)) [
          | inl same ↦ inl (ground arith)
          | inr other ↦ inr (ground arith)
        ]),
      )
      | inr moves ↦ elim (Bool-cases (e.provisioned_via == "jit")) [
        | inr placed ↦ (
          JitOutcome.noop,
          rows,
          rw (moves, placed) refl,
          kept-Reconciled e f (inr (ground arith)),
        )
        | inl jit ↦
            (let ours : reconcilable org user_id e ≡ true =
                ground (arith, find-holds (is_of org user_id) rows e f) in
              let n : is_owner e ≡ false = ground arith in
              (
                JitOutcome.updated,
                changed,
                rw (moves, jit) (ap updated_or (update-changed n)),
                changed-Reconciled ours,
              ))
      ]
    ]

-- In a table that keeps its constraints, a login with one of the roles that a login may give, for a
-- named user and organization, and with an identifier that no row has, succeeds. The constraints
-- still hold, every organization keeps its number of owners, every row that is not the user's own,
-- placed by a login and no owner's, stands as it was, and the user is a member, with the role
-- unless the row is one that may not be changed.
pub provision-Reconciled :
    (org user_id role new_id : String) (rows : Rows)
    → consistent rows ≡ true
    → is_some (lookup role role_priority) ≡ true
    → (org == "") ≡ false
    → (user_id == "") ≡ false
    → find (λ r. r.id == new_id) rows ≡ none
    → (out : JitOutcome) × (rows' : Rows) × (provision org user_id role new_id rows
        ≡ inr (out, rows'))
      × Reconciled org user_id role rows rows'
unfolding saved_or get_membership_by_org_user
provision-Reconciled org user_id role new_id rows c known org_named user_named i =
    let made = jit_membership org user_id role new_id in
    let saved = provision-saved org user_id role new_id rows c known org_named user_named in
    elim (Option-cases (find (is_of org user_id) rows)) [
      | inl f ↦
          (let v : violates made rows ≡ false =
              absent-violates made rows (prioritized role known).1 i f in
            let s = saved_new org user_id role new_id rows c known org_named user_named v in
            (
              JitOutcome.created,
              rows ++ made ∷ [],
              saved ∙ ap (saved_or org user_id role rows) s,
              created-Reconciled org user_id role new_id rows c known org_named user_named v f,
            ))
      | inr (e, f) ↦
          (let s =
              saved_twice org user_id role new_id rows c known org_named user_named
                (present-violates made e rows f) in
            let (out, rows', done, ok) =
              reconcile-Reconciled org user_id role new_id rows c known org_named user_named e f in
            (
              out,
              rows',
              saved ∙ ap (saved_or org user_id role rows) s ∙ ap (reconcile org role rows) f ∙ done,
              ok,
            ))
    ]
