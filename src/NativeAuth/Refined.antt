-- ===== src/NativeAuth/Refined.antt =====
-- The tables keep the promise of the tokens.
use axiaops.Common.{
  if◌then◌else◌, is_some, ◌==◌, string_eq, nat_eq, ℕ, String, ◌≡◌, refl, true, false, ◌||◌, none,
  some, List, [], ◌∷◌, ◌++◌, arith,
}
use axiaops.NativeAuth.{User, Reset, Store, set_password, find_reset, reset_taken, mark_redeemed}
use axiaops.NativeAuth.Resets.{spent, Spec, replaced, stored_password, state_of, has_id, distinct}

-- The tables and a promise agree.
pub record Agrees (st : Store) (sp : Spec) : Type 0 where
  pub tokens : (h : String) → sp.token h ≡ state_of (find_reset h st.resets)
  pub ids : (i : String) → sp.used i ≡ has_id i st.resets
  pub passwords : (u : String) → sp.password_of u ≡ stored_password u st.users
  pub unique : distinct st.resets ≡ true

pub find_reset-append :
    (h : String) (resets : List Reset) (r : Reset)
    → find_reset h resets ≡ none
    → find_reset h (resets ++ r ∷ []) ≡ (if r.token_hash == h then some r else none)
unfolding find_reset
find_reset-append h [] r e = refl
find_reset-append h (x ∷ resets) r e = ground (arith, find_reset-append h resets r)

pub find_reset-append_some :
    (h : String) (resets : List Reset) (r x : Reset)
    → find_reset h resets ≡ some x
    → find_reset h (resets ++ r ∷ []) ≡ some x
unfolding find_reset
find_reset-append_some h [] r x e = cc
find_reset-append_some h (y ∷ resets) r x e = ground (arith, find_reset-append_some h resets r x)

pub has_id-append :
    (i : String) (resets : List Reset) (r : Reset)
    → has_id i (resets ++ r ∷ []) ≡ (has_id i resets || r.id == i)
unfolding has_id
has_id-append i [] r = ground arith
has_id-append i (x ∷ resets) r = ground (arith, has_id-append i resets r)

pub reset_taken-found :
    (i h : String) (resets : List Reset)
    → reset_taken i h resets ≡ (has_id i resets || is_some (find_reset h resets))
unfolding reset_taken has_id find_reset
reset_taken-found i h [] = refl
reset_taken-found i h (x ∷ resets) = ground (arith, reset_taken-found i h resets)

pub distinct-append :
    (resets : List Reset) (r : Reset)
    → distinct resets ≡ true
    → reset_taken r.id r.token_hash resets ≡ false
    → distinct (resets ++ r ∷ []) ≡ true
unfolding distinct reset_taken
distinct-append [] r d t = ground arith
distinct-append (x ∷ resets) r d t =
    ground (arith, distinct-append resets r, taken-append x.id x.token_hash resets r)
  where
    taken-append :
        (i h : String) (resets : List Reset) (r : Reset)
        → reset_taken i h (resets ++ r ∷ [])
          ≡ (reset_taken i h resets || (r.id == i || r.token_hash == h))
    taken-append i h [] r = ground arith
    taken-append i h (y ∷ resets) r = ground (arith, taken-append i h resets r)

pub has_id-mark :
    (i id : String) (now : ℕ) (resets : List Reset)
    → has_id i (mark_redeemed now id resets) ≡ has_id i resets
unfolding has_id mark_redeemed
has_id-mark i id now [] = refl
has_id-mark i id now (x ∷ resets) = ground (arith, has_id-mark i id now resets)

taken-mark :
    (i h id : String) (now : ℕ) (resets : List Reset)
    → reset_taken i h (mark_redeemed now id resets) ≡ reset_taken i h resets
unfolding reset_taken mark_redeemed
taken-mark i h id now [] = refl
taken-mark i h id now (x ∷ resets) = ground (arith, taken-mark i h id now resets)

pub distinct-mark :
    (id : String) (now : ℕ) (resets : List Reset)
    → distinct (mark_redeemed now id resets) ≡ distinct resets
unfolding distinct mark_redeemed
distinct-mark id now [] = refl
distinct-mark id now (x ∷ resets) =
    ground (arith, distinct-mark id now resets, taken-mark x.id x.token_hash id now resets)

mark-untaken :
    (id h : String) (now : ℕ) (resets : List Reset)
    → has_id id resets ≡ false
    → mark_redeemed now id resets ≡ resets
unfolding has_id mark_redeemed
mark-untaken id h now [] e = refl
mark-untaken id h now (x ∷ resets) e = ground (arith, mark-untaken id h now resets)

pub find_reset-has_id :
    (h : String) (resets : List Reset) (r : Reset)
    → find_reset h resets ≡ some r
    → (has_id r.id resets ≡ true) × (r.token_hash ≡ h)
unfolding find_reset has_id
find_reset-has_id h [] r e = cc
find_reset-has_id h (x ∷ resets) r e =
    let ih = find_reset-has_id h resets r in (ground (arith, ih), ground (arith, ih))

pub find_reset-mark :
    (h token_hash : String) (now : ℕ) (resets : List Reset) (r : Reset)
    → distinct resets ≡ true
    → find_reset token_hash resets ≡ some r
    → state_of (find_reset h (mark_redeemed now r.id resets))
      ≡ (if h == token_hash then spent else state_of (find_reset h resets))
unfolding distinct find_reset mark_redeemed
find_reset-mark h token_hash now [] r d f = cc
find_reset-mark h token_hash now (x ∷ resets) r d f = ground (
  arith,
  find_reset-mark h token_hash now resets r,
  mark-untaken x.id h now resets,
  reset_taken-found x.id x.token_hash resets,
  find_reset-has_id token_hash resets r,
)

pub stored_password-set :
    (u id hash : String) (now : ℕ) (users : List User)
    → stored_password u (set_password now id hash users)
      ≡ (if u == id then replaced hash (stored_password u users) else stored_password u users)
unfolding stored_password set_password
stored_password-set u id hash now [] = ground arith
stored_password-set u id hash now (x ∷ users) =
    ground (arith, stored_password-set u id hash now users)
