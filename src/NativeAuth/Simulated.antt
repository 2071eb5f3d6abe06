-- ===== src/NativeAuth/Simulated.antt =====
-- Every sequence of calls on the tokens answers as promised.
use axiaops.Common.{
  leb, if◌then◌else◌, Bool-cases, Option-cases, is_some, ◌==◌, string_eq, nat_eq, ℕ, String, ◌≡◌,
  refl, sym, ap, ◌∙◌, inl, inr, true, false, not, ◌||◌, Option, none, some, List, [], ◌∷◌, ◌++◌,
  arith,
}
use axiaops.NativeAuth.{
  Reset, Store, set_password, find_reset, reset_taken, create_password_reset, mark_redeemed,
  redeem_found, redeem_password_reset,
}
use axiaops.NativeAuth.Resets.{
  Op, create, redeem, look, password, issued, spent, Spec, set_at, is_unissued, replaced, spec_step,
  spec_results, step, results, state_of, distinct, spec_of,
}
use axiaops.NativeAuth.Refined.{
  Agrees, find_reset-append, find_reset-append_some, has_id-append, reset_taken-found,
  distinct-append, has_id-mark, distinct-mark, find_reset-mark, stored_password-set,
}

-- One call answers as promised, and the tables and the promise go on agreeing.
abbrev Simulates : Op → Store → Spec → Type 0
Simulates op st sp =
    ((step op st).1 ≡ (spec_step op sp).1) × Agrees (step op st).0 (spec_step op sp).0

abbrev new_reset : String → String → String → String → String → ℕ → Reset
new_reset id user_id organization_id token_hash issued_by expires_at = record {
  id = id;
  user_id = user_id;
  organization_id = organization_id;
  token_hash = token_hash;
  issued_by_user_id = issued_by;
  expires_at = expires_at;
  redeemed_at = none;
}

is_unissued-state_of : (o : Option Reset) → is_unissued (state_of o) ≡ not (is_some o)
is_unissued-state_of none = refl
is_unissued-state_of (some r) = elim (Bool-cases (is_some r.redeemed_at)) [
  | inl e ↦ rw e refl
  | inr e ↦ rw e refl
]

refused_alike :
    (st : Store) (sp : Spec) (id token_hash : String)
    → Agrees st sp
    → (sp.used id || not (is_unissued (sp.token token_hash))) ≡ reset_taken id token_hash st.resets
refused_alike st sp id token_hash a =
    let i = a.ids id in
    let u =
      ap is_unissued (a.tokens token_hash)
      ∙ is_unissued-state_of (find_reset token_hash st.resets) in
    ground (arith, i, u, reset_taken-found id token_hash st.resets)

module _ (id user_id organization_id token_hash issued_by : String) (expires_at : ℕ) (st : Store)
    (sp : Spec) (a : Agrees st sp) where
  abbrev op : Op
  op = create id user_id organization_id token_hash issued_by expires_at

  abbrev row : Reset
  row = new_reset id user_id organization_id token_hash issued_by expires_at

  new_token :
      (h : String)
      → find_reset h st.resets ≡ none
      → sp.token h ≡ state_of (find_reset h st.resets)
      → set_at token_hash (issued user_id organization_id expires_at) sp.token h
        ≡ state_of (if token_hash == h then some row else none)
  new_token h n k = elim (Bool-cases (h == token_hash)) [
    | inl e ↦ (let e' : (token_hash == h) ≡ true = ground arith in rw (e, e') refl)
    | inr e ↦ (let e' : (token_hash == h) ≡ false = ground arith in rw (e, e') (k ∙ ap state_of n))
  ]

  old_token :
      (h : String) (x : Reset)
      → reset_taken id token_hash st.resets ≡ false
      → find_reset h st.resets ≡ some x
      → sp.token h ≡ state_of (find_reset h st.resets)
      → set_at token_hash (issued user_id organization_id expires_at) sp.token h ≡ state_of (some x)
  old_token h x t n k =
      let e : (h == token_hash) ≡ false =
        ground (arith, t, n, reset_taken-found id token_hash st.resets) in
      rw e (k ∙ ap state_of n)

  issued-Agrees :
      reset_taken id token_hash st.resets ≡ false
      → Agrees
          (record st { resets = st.resets ++ row ∷ [] })
          (record sp {
            token = set_at token_hash (issued user_id organization_id expires_at) sp.token;
            used = set_at id true sp.used;
          })
  issued-Agrees t = record {
    tokens = λ h.
        (let k = a.tokens h in
          elim (Option-cases (find_reset h st.resets)) [
            | inl n ↦ rw (find_reset-append h st.resets row n) (new_token h n k)
            | inr (x, n) ↦ rw (find_reset-append_some h st.resets row x n) (old_token h x t n k)
          ]);
    ids = λ i. (let k = a.ids i in ground (arith, k, has_id-append i st.resets row));
    passwords = a.passwords;
    unique = distinct-append st.resets row a.unique t;
  }

  create-Simulates : Simulates op st sp
  unfolding step spec_step create_password_reset
  create-Simulates =
      elim (Bool-cases
        (id == "" || (user_id == "" || (organization_id == "" || token_hash == "")))) [
          | inl m ↦ rw m (refl, a)
          | inr m ↦ elim (Bool-cases (expires_at == 0)) [
            | inl z ↦ rw (m, z) (refl, a)
            | inr z ↦ elim (Bool-cases (reset_taken id token_hash st.resets)) [
              | inl t ↦ rw (m, z, t, refused_alike st sp id token_hash a ∙ t) (refl, a)
              | inr t ↦
                  rw (m, z, t, refused_alike st sp id token_hash a ∙ t) (refl, issued-Agrees t)
            ]
          ]
        ]

module _ (now : ℕ) (token_hash hash : String) (st : Store) (sp : Spec) (a : Agrees st sp) where
  spent-Agrees :
      (r : Reset)
      → find_reset token_hash st.resets ≡ some r
      → Agrees
          (record {
            users = set_password now r.user_id hash st.users;
            resets = mark_redeemed now r.id st.resets;
          })
          (record sp {
            token = set_at token_hash spent sp.token;
            password_of =
                λ u. if u == r.user_id then replaced hash (sp.password_of u) else sp.password_of u;
          })
  spent-Agrees r f = record {
    tokens = λ h.
        (let k = a.tokens h in
          let m = find_reset-mark h token_hash now st.resets r a.unique f in
          elim (Bool-cases (h == token_hash)) [
            | inl e ↦ rw e (sym (m ∙ rw e refl))
            | inr e ↦ rw e (k ∙ sym (m ∙ rw e refl))
          ]);
    ids = λ i. a.ids i ∙ sym (has_id-mark i r.id now st.resets);
    passwords = λ u.
        (let k = a.passwords u in
          let m = stored_password-set u r.user_id hash now st.users in
          elim (Bool-cases (u == r.user_id)) [
            | inl e ↦ rw (e, k) (sym (m ∙ rw e refl))
            | inr e ↦ rw (e, k) (sym (m ∙ rw e refl))
          ]);
    unique = distinct-mark r.id now st.resets ∙ a.unique;
  }

  token_spent :
      (r : Reset)
      → find_reset token_hash st.resets ≡ some r
      → is_some r.redeemed_at ≡ true
      → sp.token token_hash ≡ spent
  token_spent r f e =
      a.tokens token_hash
      ∙ ap state_of f
      ∙ ap (λ b. if b then spent else issued r.user_id r.organization_id r.expires_at) e

  token_issued :
      (r : Reset)
      → find_reset token_hash st.resets ≡ some r
      → is_some r.redeemed_at ≡ false
      → sp.token token_hash ≡ issued r.user_id r.organization_id r.expires_at
  token_issued r f e =
      a.tokens token_hash
      ∙ ap state_of f
      ∙ ap (λ b. if b then spent else issued r.user_id r.organization_id r.expires_at) e

  redeem-Simulates : Simulates (redeem now token_hash hash) st sp
  unfolding step spec_step redeem_password_reset redeem_found
  redeem-Simulates = elim (Bool-cases (token_hash == "" || hash == "")) [
    | inl m ↦ rw m (refl, a)
    | inr m ↦ elim (Option-cases (find_reset token_hash st.resets)) [
      | inl f ↦ rw (m, f, a.tokens token_hash ∙ ap state_of f) (refl, a)
      | inr (r, f) ↦ elim (Bool-cases (is_some r.redeemed_at)) [
        | inl s ↦ rw (m, f, token_spent r f s, s) (refl, a)
        | inr s ↦ elim (Bool-cases (leb r.expires_at now)) [
          | inl x ↦ rw (m, f, token_issued r f s, s, x) (refl, a)
          | inr x ↦ rw (m, f, token_issued r f s, s, x) (refl, spent-Agrees r f)
        ]
      ]
    ]
  ]

step-Simulates : (op : Op) (st : Store) (sp : Spec) → Agrees st sp → Simulates op st sp
unfolding step spec_step
step-Simulates (create id user_id organization_id token_hash issued_by expires_at) st sp a =
    create-Simulates id user_id organization_id token_hash issued_by expires_at st sp a
step-Simulates (redeem now token_hash hash) st sp a = redeem-Simulates now token_hash hash st sp a
step-Simulates (look user_id) st sp a = (ap password (sym (a.passwords user_id)), a)

results-Agrees :
    (ops : List Op) (st : Store) (sp : Spec) → Agrees st sp → results ops st ≡ spec_results ops sp
unfolding results spec_results
results-Agrees [] st sp a = refl
results-Agrees (op ∷ ops) st sp a =
    let (same, a') = step-Simulates op st sp a in
    let ih = results-Agrees ops (step op st).0 (spec_step op sp).0 a' in
    ap (λ r. r ∷ results ops (step op st).0) same ∙ ap (λ rs. (spec_step op sp).1 ∷ rs) ih

-- From tables whose unique constraints hold, every sequence of resets that are created and redeemed,
-- and of looks at passwords, answers, errors included, as the promise does that starts with what the
-- tables hold: there a token is issued only if it never was, gives its user the new password only
-- before it expires and only once, and is refused for ever after.
pub results-spec_results :
    (ops : List Op) (st : Store)
    → distinct st.resets ≡ true
    → results ops st ≡ spec_results ops (spec_of st)
unfolding spec_of
results-spec_results ops st d =
    results-Agrees ops st (spec_of st)
      (record { tokens = λ h. refl; ids = λ i. refl; passwords = λ u. refl; unique = d })
