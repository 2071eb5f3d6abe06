-- ===== src/NativeAuth/Bootstrap/Sealed.antt =====
-- The bootstrap happens at most once, and leaves one owner.
use axiaops.Common.{
  ltb, if◌then◌else◌, Bool-cases, is_some, length, All, ◌==◌, string_eq, nat_eq, ℕ, ◌≤◌, String,
  ◌≡◌, refl, ap, ◌∙◌, ◌⊎◌, inl, inr, Bool, true, false, not, ◌&&◌, Option, none, some, List, [],
  ◌∷◌, ◌++◌, arith,
}
use axiaops.Membership.{
  Membership, Rows, StoreError, Outcome, violates, consistent, owners, insert_row,
}
use axiaops.Membership.Table.{consistent-append, owners-append, violates-owners}
use axiaops.Session.{Session, taken as session_taken}
use axiaops.NativeAuth.{User, taken}
use axiaops.NativeAuth.Bootstrap.{
  Organization, BootstrapState, Tables, BootstrapError, BootstrapConsume, create_bootstrap_state,
  org_taken, new_organization, new_owner, owner_membership, owner_session, lacks_inputs, seal,
  install, consume_row, consume_bootstrap_state,
}

pub data Op : Type 0 where
  mint : String → String → Op
  consume : ℕ → String → BootstrapConsume → Op

abbrev pub minted : Tables → BootstrapError ⊎ (Tables × Bool) → Tables
minted st (inl err) = st
minted st (inr (st', wrote)) = st'

abbrev pub installed : Tables → BootstrapError ⊎ (Tables × User × Session) → Tables × Bool
installed st (inl err) = (st, false)
installed st (inr (st', u, s)) = (st', true)

-- A call: the tables after it, and whether it set up an owner.
unfoldable pub call : (String → String) → Op → Tables → Tables × Bool
unfolding create_bootstrap_state consume_bootstrap_state
call lower (mint token_hash pod) st = (minted st (create_bootstrap_state token_hash pod st), false)
call lower (consume now membership_id c) st =
    installed st (consume_bootstrap_state lower now membership_id c st)

abbrev pub org_of : Op → String
org_of (mint token_hash pod) = ""
org_of (consume now membership_id c) = c.organization_id

-- The tables after some calls, and the organizations that they set up.
unfoldable pub calls : (String → String) → List Op → Tables → Tables × List String
unfolding call
calls lower [] st = (st, [])
calls lower (op ∷ ops) st =
    let (st', won) = call lower op st in
    let (final, orgs) = calls lower ops st' in (final, if won then org_of op ∷ orgs else orgs)

-- An organization exists, and there is no token.
abbrev pub is_sealed : Tables → Bool
is_sealed st = ltb 0 (length st.organizations) && not (is_some st.bootstrap_state)

mint-sealed :
    (token_hash pod : String) (st : Tables)
    → is_sealed st ≡ true
    → minted st (create_bootstrap_state token_hash pod st) ≡ st
unfolding create_bootstrap_state
mint-sealed token_hash pod st h = elim (Bool-cases (token_hash == "")) [
  | inl e ↦ rw e refl
  | inr e ↦ (let o : ltb 0 (length st.organizations) ≡ true = ground arith in rw (e, o) refl)
]

consume-sealed :
    (lower : String → String) (now : ℕ) (membership_id : String) (c : BootstrapConsume)
    (st : Tables)
    → is_sealed st ≡ true
    → installed st (consume_bootstrap_state lower now membership_id c st) ≡ (st, false)
unfolding consume_bootstrap_state consume_row
consume-sealed lower now membership_id c st h =
    let none_left : st.bootstrap_state ≡ none = ground arith in
    elim (Bool-cases (lacks_inputs c)) [ inl e ↦ rw e refl | inr e ↦ rw (e, none_left) refl ]

call-sealed :
    (lower : String → String) (op : Op) (st : Tables)
    → is_sealed st ≡ true
    → call lower op st ≡ (st, false)
unfolding call
call-sealed lower (mint token_hash pod) st h =
    ap (λ s. (s, false)) (mint-sealed token_hash pod st h)
call-sealed lower (consume now membership_id c) st h = consume-sealed lower now membership_id c st h

calls-sealed :
    (lower : String → String) (ops : List Op) (st : Tables)
    → is_sealed st ≡ true
    → calls lower ops st ≡ (st, [])
unfolding calls
calls-sealed lower [] st h = refl
calls-sealed lower (op ∷ ops) st h = rw (call-sealed lower op st h) (calls-sealed lower ops st h)

-- The tables in which an organization was set up: sealed, with their constraints, and with one owner
-- of the organization.
abbrev pub SetUp : String → Tables → Type 0
SetUp org st =
    (is_sealed st ≡ true) × (consistent st.memberships ≡ true) × (owners org st.memberships ≡ 1)

abbrev SetsUp : String → BootstrapError ⊎ (Tables × User × Session) → Type 0
SetsUp org (inl err) = Unit
SetsUp org (inr (st, u, s)) = SetUp org st

insert_row-inr :
    (err : StoreError) (org : String) (m : Membership) (rows rows' : Rows)
    → insert_row err org m rows ≡ inr rows'
    → (violates m rows ≡ false) × (rows' ≡ rows ++ m ∷ [])
insert_row-inr err org m rows rows' e = (ground (arith, e), ground (arith, e))

longer : (orgs : List Organization) (o : Organization) → ltb 0 (length (orgs ++ o ∷ [])) ≡ true
longer [] o = refl
longer (p ∷ orgs) o = ground arith

module _ (lower : String → String) (now : ℕ) (membership_id : String) (c : BootstrapConsume)
    (st : Tables) (ok : consistent st.memberships ≡ true) where
  seal-SetsUp :
      (outcome : Outcome)
      → insert_row StoreError.storage_failed c.organization_id
          (owner_membership membership_id c)
          st.memberships
        ≡ outcome
      → SetsUp c.organization_id (seal lower now membership_id c st outcome)
  unfolding seal
  seal-SetsUp (inl err) e = tt
  seal-SetsUp (inr rows) e =
      let m = owner_membership membership_id c in
      let (free, same) =
        insert_row-inr StoreError.storage_failed c.organization_id m st.memberships rows e in
      elim (Bool-cases (session_taken (owner_session now c) st.sessions)) [
        | inl t ↦ rw t tt
        | inr t ↦ rw t (
          rw (longer st.organizations (new_organization c)) refl,
          rw same (consistent-append st.memberships m ok free),
          rw same (
              ground (
                arith,
                owners-append c.organization_id st.memberships m,
                violates-owners m st.memberships,
                free,
              )),
        )
      ]

  install-SetsUp : SetsUp c.organization_id (install lower now membership_id c st)
  unfolding install
  install-SetsUp = elim (Bool-cases (org_taken (new_organization c) st.organizations)) [
    | inl t ↦ rw t tt
    | inr t ↦ elim (Bool-cases (taken lower (new_owner now c) st.users)) [
      | inl u ↦ rw (t, u) tt
      | inr u ↦
          rw (t, u)
            (seal-SetsUp
              (insert_row StoreError.storage_failed c.organization_id
                (owner_membership membership_id c) st.memberships)
              refl)
    ]
  ]

  row-SetsUp :
      (row : Option BootstrapState)
      → SetsUp c.organization_id (consume_row lower now membership_id c st row)
  unfolding consume_row
  row-SetsUp none = tt
  row-SetsUp (some row) = elim (Bool-cases (row.token_hash == c.token_hash)) [
    | inl e ↦ rw e install-SetsUp
    | inr e ↦ rw e tt
  ]

  consume-SetsUp : SetsUp c.organization_id (consume_bootstrap_state lower now membership_id c st)
  unfolding consume_bootstrap_state
  consume-SetsUp = elim (Bool-cases (lacks_inputs c)) [
    | inl e ↦ rw e tt
    | inr e ↦ rw e (row-SetsUp st.bootstrap_state)
  ]

-- What one call leaves: the memberships as they were, or tables in which its organization is set up.
abbrev Leaves : Op → Tables → Tables × Bool → Type 0
Leaves op st (st', false) = st'.memberships ≡ st.memberships
Leaves op st (st', true) = SetUp (org_of op) st'

mint-Leaves :
    (token_hash pod : String) (st : Tables)
    → (minted st (create_bootstrap_state token_hash pod st)).memberships ≡ st.memberships
unfolding create_bootstrap_state
mint-Leaves token_hash pod st = elim (Bool-cases (token_hash == "")) [
  | inl e ↦ rw e refl
  | inr e ↦ elim (Bool-cases (ltb 0 (length st.organizations))) [
    | inl o ↦ rw (e, o) refl
    | inr o ↦ elim (Bool-cases (is_some st.bootstrap_state)) [
      | inl b ↦ rw (e, o, b) refl
      | inr b ↦ rw (e, o, b) refl
    ]
  ]
]

installed-Leaves :
    (now : ℕ) (membership_id : String) (c : BootstrapConsume) (st : Tables)
    (r : BootstrapError ⊎ (Tables × User × Session))
    → SetsUp c.organization_id r
    → Leaves (consume now membership_id c) st (installed st r)
installed-Leaves now membership_id c st (inl err) h = refl
installed-Leaves now membership_id c st (inr (st', u, s)) h = h

call-Leaves :
    (lower : String → String) (op : Op) (st : Tables)
    → consistent st.memberships ≡ true
    → Leaves op st (call lower op st)
unfolding call
call-Leaves lower (mint token_hash pod) st ok = mint-Leaves token_hash pod st
call-Leaves lower (consume now membership_id c) st ok =
    installed-Leaves now membership_id c st (consume_bootstrap_state lower now membership_id c st)
      (consume-SetsUp lower now membership_id c st ok)

-- After some calls: at most one organization was set up, it has one owner, and the constraints on
-- the memberships hold.
abbrev pub SetUpOnce : Tables × List String → Type 0
SetUpOnce (final, orgs) =
    (length orgs ≤ 1)
    × All (λ org. owners org final.memberships ≡ 1) orgs
    × (consistent final.memberships ≡ true)

call-SetUpOnce :
    (lower : String → String) (op : Op) (ops : List Op) (st : Tables) (x : Tables × Bool)
    → consistent st.memberships ≡ true
    → ((st' : Tables) → consistent st'.memberships ≡ true → SetUpOnce (calls lower ops st'))
    → Leaves op st x
    → SetUpOnce (
      (calls lower ops x.0).0,
      if x.1 then org_of op ∷ (calls lower ops x.0).1 else (calls lower ops x.0).1,
    )
call-SetUpOnce lower op ops st (st', false) ok ih h = ih st' (ap consistent h ∙ ok)
call-SetUpOnce lower op ops st (st', true) ok ih (s, k, one) =
    rw (calls-sealed lower ops st' s) (omega arith, (one, tt), k)

-- From tables whose memberships keep their constraints, whatever calls are made, in any order and
-- with any tokens and inputs: at most one of them sets up an organization, that organization has one
-- owner at the end, and the constraints on the memberships still hold.
pub calls-SetUpOnce :
    (lower : String → String) (ops : List Op) (st : Tables)
    → consistent st.memberships ≡ true
    → SetUpOnce (calls lower ops st)
unfolding calls
calls-SetUpOnce lower [] st ok = (omega arith, tt, ok)
calls-SetUpOnce lower (op ∷ ops) st ok =
    call-SetUpOnce lower op ops st (call lower op st) ok (λ st' k. calls-SetUpOnce lower ops st' k)
      (call-Leaves lower op st ok)
