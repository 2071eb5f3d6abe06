-- ===== src/Membership/Lookup.antt =====
-- The rows that a read finds, after an insert or a change of a role.
use axiaops.Common.{
  Bool-cases, In, ◌==◌, string_eq, nat_eq, String, ◌≡◌, refl, sym, ap, ◌∙◌, inl, inr, Bool, true,
  false, none, some, [], ◌∷◌, ◌++◌, arith,
}
use axiaops.Membership.{
  Membership, Rows, is_owner, clash, violates, consistent, is_at, is_of, find, set_role,
}
use axiaops.Membership.Table.{find-violates}

pub absent-violates :
    (m : Membership) (rows : Rows)
    → is_owner m ≡ false
    → find (λ r. r.id == m.id) rows ≡ none
    → find (is_of m.organization_id m.user_id) rows ≡ none
    → violates m rows ≡ false
unfolding find violates clash
absent-violates m [] o i f = refl
absent-violates m (r ∷ rows) o i f = ground (arith, absent-violates m rows)

pub present-violates :
    (m e : Membership) (rows : Rows)
    → find (is_of m.organization_id m.user_id) rows ≡ some e
    → violates m rows ≡ true
unfolding find violates clash
present-violates m e [] f = cc
present-violates m e (r ∷ rows) f = ground (arith, present-violates m e rows)

pub find-append :
    (p : Membership → Bool) (rows : Rows) (m : Membership)
    → find p rows ≡ none
    → p m ≡ true
    → find p (rows ++ m ∷ []) ≡ some m
unfolding find
find-append p [] m f h = ground arith
find-append p (r ∷ rows) m f h = ground (arith, find-append p rows m)

pub In-find :
    (org : String) (m : Membership) (rows : Rows)
    → consistent rows ≡ true
    → In m rows
    → m.organization_id ≡ org
    → find (is_at org m.id) rows ≡ some m
unfolding consistent find violates clash
In-find org m [] c h e = elim h [ ]
In-find org m (r ∷ rows) c (inl same) e = ground arith
In-find org m (r ∷ rows) c (inr h) e =
    let ih = In-find org m rows in ground (arith, ih, find-violates org r rows)

pub In-set_role :
    (p : Membership → Bool) (role : String) (m : Membership) (rows : Rows)
    → In m rows
    → p m ≡ false
    → In m (set_role p role rows)
unfolding set_role
In-set_role p role m [] h e = elim h [ ]
In-set_role p role m (r ∷ rows) (inl same) e =
    let k : p r ≡ false = ap p (sym same) ∙ e in rw k (inl same)
In-set_role p role m (r ∷ rows) (inr h) e =
    let ih = In-set_role p role m rows h e in
    elim (Bool-cases (p r)) [ inl k ↦ rw k (inr ih) | inr k ↦ rw k (inr ih) ]

pub find-set_role :
    (org user_id id role : String) (rows : Rows) (m : Membership)
    → find (is_of org user_id) rows ≡ some m
    → m.id ≡ id
    → find (is_of org user_id) (set_role (is_at org id) role rows) ≡ some (record m { role = role })
unfolding find set_role
find-set_role org user_id id role [] m f e = cc
find-set_role org user_id id role (r ∷ rows) m f e =
    ground (arith, find-set_role org user_id id role rows m)
