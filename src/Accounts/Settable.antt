-- ===== src/Accounts/Settable.antt =====
-- How the updates of an account's status change what is read of it.
use axiaops.Common.{
  if◌then◌else◌, ◌==◌, string_eq, nat_eq, ℕ, String, ◌≡◌, refl, Bool, true, false, some, [], ◌∷◌,
  arith,
}
use axiaops.Accounts.{
  Account, Rows, is_at, find, change, writes_ok, row_ok, is_idle_at, with_status, marked,
}

pub find-change :
    (org id : String) (p : Account → Bool) (f : Account → Account) (rows : Rows) (a : Account)
    → ((r : Account) → (f r).id ≡ r.id)
    → ((r : Account) → (f r).organization_id ≡ r.organization_id)
    → find (is_at org id) rows ≡ some a
    → find (is_at org id) (change p f rows) ≡ some (if p a then f a else a)
unfolding find change
find-change org id p f [] a i o e = cc
find-change org id p f (r ∷ rows) a i o e =
    ground (arith, find-change org id p f rows a i o, i r, o r)

-- The rows of an identifier may have any status but that of a draft.
unfoldable pub settable : String → String → Rows → Bool
unfolding writes_ok
settable org id rows = writes_ok (is_at org id) (λ r. record r { status = "connected" }) rows

drafts :
    (◌==◌ {A = String} "connected" "pending_role_setup" ≡ false)
    × (◌==◌ {A = String} "scanning" "pending_role_setup" ≡ false)
unfolding string_eq
drafts = (refl, refl)

row_ok-with_status :
    (now : ℕ) (status : String) (a : Account)
    → status == "pending_role_setup" ≡ false
    → row_ok (with_status now status a) ≡ row_ok (record a { status = "connected" })
unfolding row_ok
row_ok-with_status now status a h = ground (arith, drafts, h)

row_ok-marked :
    (now : ℕ) (a : Account) → row_ok (marked now a) ≡ row_ok (record a { status = "connected" })
unfolding row_ok
row_ok-marked now a = ground (arith, drafts)

row_ok-connected_marked :
    (now : ℕ) (a : Account)
    → row_ok (record (marked now a) { status = "connected" })
      ≡ row_ok (record a { status = "connected" })
unfolding row_ok
row_ok-connected_marked now a = refl

pub settable-with_status :
    (now : ℕ) (org id status : String) (rows : Rows)
    → status == "pending_role_setup" ≡ false
    → settable org id rows ≡ true
    → writes_ok (is_at org id) (with_status now status) rows ≡ true
unfolding settable writes_ok
settable-with_status now org id status [] h s = refl
settable-with_status now org id status (r ∷ rows) h s =
    ground (arith, settable-with_status now org id status rows, row_ok-with_status now status r)

pub settable-marked :
    (now : ℕ) (org id : String) (rows : Rows)
    → settable org id rows ≡ true
    → (writes_ok (is_idle_at org id) (marked now) rows ≡ true)
      × (settable org id (change (is_idle_at org id) (marked now) rows) ≡ true)
unfolding settable writes_ok change
settable-marked now org id [] s = (refl, refl)
settable-marked now org id (r ∷ rows) s =
    let ih = settable-marked now org id rows in
    (ground (arith, ih, row_ok-marked now r), ground (arith, ih, row_ok-connected_marked now r))

pub find-holds :
    (p : Account → Bool) (rows : Rows) (a : Account) → find p rows ≡ some a → p a ≡ true
unfolding find
find-holds p [] a e = cc
find-holds p (r ∷ rows) a e = ground (arith, find-holds p rows a)
