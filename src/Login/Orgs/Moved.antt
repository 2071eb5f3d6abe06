-- ===== src/Login/Orgs/Moved.antt =====
-- What a switch to another organization leaves.
use axiaops.Common.{
  if◌then◌else◌, In, ◌==◌, string_eq, nat_eq, String, ◌≡◌, refl, sym, ap, ◌∙◌, ◌≢◌, Bool, true,
  false, Option, none, some, List, arith,
}
use axiaops.Membership.{Membership}
use axiaops.Session.{Session}
use axiaops.Session.Manager.{State, validate_session, revoke, mint_session}
use axiaops.Login.{Draw}
use axiaops.Login.Orgs.{
  find_org, and_mint, rotate_session_for_org, SwitchAnswer, no_session, organization_required,
  unchanged, switched, moved_session, rotated, switch_found, switch_for, switch_org,
  user_memberships, switch_listed,
}
use axiaops.Login.Orgs.Chosen.{find_org-In, user_memberships-In}

module _ (hash_token : String → String) (name : String → Option String) (table : List Membership)
    (d : Draw) (target : String) (m : Membership) (s : Session) where
  -- The old session is revoked, and the new one is the same user's, opened the same way, in the
  -- organization that was asked for.
  abbrev pub Moved : Session → State → State → Type 0
  Moved old before after =
      (between : State) × (revoke d.faults d.now old.id old.session_token_hash before
        ≡ some between)
      × (mint_session d.faults d.now d.per_user_cap (moved_session d old target) between
          ≡ some (after, s))

  and_mint-Moved :
      (old : Session) (before : State) (revoked : Option State) (after : State) (made : Session)
      → revoke d.faults d.now old.id old.session_token_hash before ≡ revoked
      → and_mint d (moved_session d old target) revoked ≡ some (after, made)
      → made ≡ s
      → Moved old before after
  and_mint-Moved old before none after made r e q = cc
  and_mint-Moved old before (some between) after made r e q = (between, r, rw (sym q) e)

  switched-same :
      (n : Membership) (made : Session) → switched n made ≡ switched m s → (n ≡ m) × (made ≡ s)
  switched-same n made e = (cc, cc)

  rotated-Moved :
      (old : Session) (st : State) (n : Membership) (rotation : Option (State × Session))
      → rotate_session_for_org d old.id old.session_token_hash (moved_session d old target) st
        ≡ rotation
      → (rotated d old n st rotation).1 ≡ switched m s
      → (n ≡ m) × Moved old st (rotated d old n st rotation).0
  unfolding rotate_session_for_org
  rotated-Moved old st n none r e = cc
  rotated-Moved old st n (some (after, made)) r e =
      let (p, q) = switched-same n made e in
      (
        p,
        and_mint-Moved old st (revoke d.faults d.now old.id old.session_token_hash st) after made
            refl (ground (arith, r)) q,
      )

  choice-Moved :
      (old : Session) (st : State) (n : Membership) (same : Bool)
      → (if same
          then (st, unchanged n)
          else rotated d old n st (
              rotate_session_for_org d old.id old.session_token_hash
                (moved_session d old target)
                st)).1
        ≡ switched m s
      → (same ≡ false)
        × (n ≡ m)
        × Moved old st
            (if same
              then (st, unchanged n)
              else rotated d old n st (
                  rotate_session_for_org d old.id old.session_token_hash
                    (moved_session d old target)
                    st)).0
  choice-Moved old st n true e = cc
  choice-Moved old st n false e =
      let (p, moved) =
        rotated-Moved old st n
          (rotate_session_for_org d old.id old.session_token_hash (moved_session d old target) st)
          refl e in
      (refl, p, moved)

  -- What a switch that succeeds shows of the session that the token had and of the states.
  abbrev pub SwitchedFrom : State → Session → State → Type 0
  SwitchedFrom before old after =
      ((target == "") ≡ false)
      × ((target == old.organization_id) ≡ false)
      × (m.user_id ≡ old.user_id)
      × (m.organization_id ≡ target)
      × In m table
      × Moved old before after

  switch_found-SwitchedFrom :
      (st : State) (old : Session) (ms : List Membership) (found : Option Membership)
      → user_memberships d.join_query_works name old.user_id table ≡ some ms
      → find_org target ms ≡ found
      → (target == "") ≡ false
      → (switch_found d target old st found).1 ≡ switched m s
      → SwitchedFrom st old (switch_found d target old st found).0
  switch_found-SwitchedFrom st old ms none l f t e = cc
  switch_found-SwitchedFrom st old ms (some n) l f t e =
      let (differs, p, moved) = choice-Moved old st n (target == old.organization_id) e in
      let (org, listed) = find_org-In target ms m (f ∙ ap some p) in
      let (owned, placed) =
        user_memberships-In d.join_query_works name old.user_id table ms m l listed in
      (t, differs, owned, org, placed, moved)

  switch_listed-SwitchedFrom :
      (st : State) (old : Session) (listed : Option (List Membership))
      → user_memberships d.join_query_works name old.user_id table ≡ listed
      → (target == "") ≡ false
      → (switch_listed d target old st listed).1 ≡ switched m s
      → SwitchedFrom st old (switch_listed d target old st listed).0
  switch_listed-SwitchedFrom st old none l t e = cc
  switch_listed-SwitchedFrom st old (some ms) l t e =
      switch_found-SwitchedFrom st old ms (find_org target ms) l refl t e

  -- A guard before the rest of the handler.
  guard-Passed :
      (stop : Bool) (a rest : State × SwitchAnswer) (answer : SwitchAnswer)
      → a.1 ≡ answer
      → answer ≢ switched m s
      → (if stop then a else rest).1 ≡ switched m s
      → (stop ≡ false) × ((if stop then a else rest) ≡ rest)
  guard-Passed true a rest answer p n e = elim (n (sym p ∙ e)) [ ]
  guard-Passed false a rest answer p n e = (refl, refl)

  switch_for-SwitchedFrom :
      (st : State) (seen : Option Session)
      → (switch_for hash_token name table d target (st, seen)).1 ≡ switched m s
      → (old : Session) × (seen ≡ some old)
        × SwitchedFrom st old (switch_for hash_token name table d target (st, seen)).0
  switch_for-SwitchedFrom st none e = cc
  switch_for-SwitchedFrom st (some old) e =
      let listed = user_memberships d.join_query_works name old.user_id table in
      let (t, passed) =
        guard-Passed (target == "") (st, organization_required)
          (switch_listed d target old st listed) organization_required refl (λ x. cc) e in
      (
        old,
        refl,
        rw passed
            (switch_listed-SwitchedFrom st old listed refl t (sym (ap (λ r. r.1) passed) ∙ e)),
      )

  -- A switch that succeeds had a token that the validation accepted and named an organization other
  -- than the session's; the membership is the session's user's, in that organization and in the
  -- table; and after the validation the old session is revoked and then one minted that differs from
  -- it in the organization, the identifier, the token's hash and the times, and is not revoked.
  pub switch_org-SwitchedFrom :
      (token : String) (st : State)
      → (switch_org hash_token name table d token target st).1 ≡ switched m s
      → (old : Session) × ((validate_session hash_token d.faults d.now token st).1 ≡ some old)
        × SwitchedFrom
            (validate_session hash_token d.faults d.now token st).0
            old
            (switch_org hash_token name table d token target st).0
  unfolding switch_org
  switch_org-SwitchedFrom token st e =
      let seen = validate_session hash_token d.faults d.now token st in
      let (present, passed) =
        guard-Passed (token == "") (st, no_session) (switch_for hash_token name table d target seen)
          no_session refl (λ x. cc) e in
      rw passed (switch_for-SwitchedFrom seen.0 seen.1 (sym (ap (λ r. r.1) passed) ∙ e))
