-- ===== src/Oidc/Callback/Enter/SingleUse.antt =====
-- A state serves one callback.
use axiaops.Common.{
  Bool-cases, or_else, All, ◌==◌, string_eq, nat_eq, String, ◌≡◌, refl, sym, ◌≢◌, ◌⊎◌, inl, inr,
  Bool, true, false, not, ◌||◌, List, [], ◌∷◌,
}
use mathlib.Core.Path.{subst}
use axiaops.Cache.{Cache}
use axiaops.Oidc.{Library, SsoConnection, StateData, down, ConsumeError, consume}
use axiaops.Oidc.Token.{Idp}
use axiaops.Oidc.Initiate.{InitiateRequest, initiate}
use axiaops.Oidc.Callback.{CallbackRequest, SsoTables, CallbackState}
use axiaops.Oidc.Callback.Enter.{CallbackAnswer, refused, with_states, callback}
use axiaops.Oidc.Callback.Enter.Spent.{
  Spent, consume-Spent, consume-spends, consume-refused, initiate-Spent,
}
use axiaops.Oidc.Callback.Enter.Leaves.{with_states-Leaves}

-- A request to one of the two handlers, with the tables that it meets.
pub data Request : Type 0 where
  initiating : List SsoConnection → InitiateRequest → Request
  calling : SsoTables → CallbackRequest → Request

-- No ceremony begins with the state.
abbrev pub draws_other : String → Request → Bool
draws_other state (initiating connections r) = not (or_else r.state_draw "" == state)
draws_other state (calling t r) = true

module _ (lib : Library) (idp : Idp) (public_host : String) (r : CallbackRequest)
    (t : SsoTables) where
  callback-Spent :
      (state : String) (st : CallbackState)
      → Spent state st.states
      → Spent state (callback lib idp public_host r t st).0.states
  unfolding callback
  callback-Spent state st h = elim (Bool-cases (r.code == "" || r.state == "")) [
    | inl b ↦ rw b h
    | inr b ↦
        rw
          (
            b,
            with_states-Leaves lib idp public_host r t st
                (consume r.reply r.cache_now r.now r.state st.states),
          )
          (consume-Spent r.reply r.cache_now r.now state r.state st.states h)
  ]

  callback-spends :
      (st : CallbackState)
      → (r.code == "") ≡ false
      → (r.state == "") ≡ false
      → r.reply ≢ down
      → Spent r.state (callback lib idp public_host r t st).0.states
  unfolding callback
  callback-spends st c s n =
      let went : callback lib idp public_host r t st
          ≡ with_states lib idp public_host r t st
              (consume r.reply r.cache_now r.now r.state st.states) =
        rw (c, s) refl in
      subst (λ (a : CallbackState × CallbackAnswer). Spent r.state a.0.states) (sym went)
        (subst (Spent r.state)
          (sym (
            with_states-Leaves lib idp public_host r t st
              (consume r.reply r.cache_now r.now r.state st.states)))
          (consume-spends r.reply r.cache_now r.now r.state st.states s n))

  with_states-refused :
      (st : CallbackState) (a : Cache StateData × (ConsumeError ⊎ StateData)) (err : ConsumeError)
      → a.1 ≡ inl err
      → (with_states lib idp public_host r t st a).1 ≡ refused
  with_states-refused st (states, found) err e = rw e refl

  callback-refused :
      (st : CallbackState)
      → Spent r.state st.states
      → (callback lib idp public_host r t st).1 ≡ refused
  unfolding callback
  callback-refused st h = elim (Bool-cases (r.code == "" || r.state == "")) [
    | inl b ↦ rw b refl
    | inr b ↦
        (let (err, e) = consume-refused r.reply r.cache_now r.now r.state st.states h in
          rw b (with_states-refused st (consume r.reply r.cache_now r.now r.state st.states) err e))
  ]

module _ (lib : Library) (idp : Idp) (public_host : String) where
  -- What a request leaves.
  abbrev pub serve : Request → CallbackState → CallbackState
  serve (initiating connections r) st = record st {
    states = (initiate lib idp public_host r connections st.states).0;
  }
  serve (calling t r) st = (callback lib idp public_host r t st).0

  unfoldable pub serve_all : List Request → CallbackState → CallbackState
  serve_all [] st = st
  serve_all (q ∷ qs) st = serve_all qs (serve q st)

  serve-Spent :
      (state : String) (q : Request) (st : CallbackState)
      → draws_other state q ≡ true
      → Spent state st.states
      → Spent state (serve q st).states
  serve-Spent state (initiating connections r) st n h =
      initiate-Spent lib idp public_host r state st.states n h connections
  serve-Spent state (calling t r) st n h = callback-Spent lib idp public_host r t state st h

  serve_all-Spent :
      (state : String) (qs : List Request) (st : CallbackState)
      → All (λ q. draws_other state q ≡ true) qs
      → Spent state st.states
      → Spent state (serve_all qs st).states
  unfolding serve_all
  serve_all-Spent state [] st n h = h
  serve_all-Spent state (q ∷ qs) st (n, ns) h =
      serve_all-Spent state qs (serve q st) ns (serve-Spent state q st n h)

  -- A state serves one callback at most: after a callback with a code and a state, whatever its
  -- answer, unless the cache was not reached, and after any requests of which none draws the state
  -- anew, every callback with that state is refused.
  pub callback-single_use :
      (t later : SsoTables) (r again : CallbackRequest) (qs : List Request) (st : CallbackState)
      → (r.code == "") ≡ false
      → (r.state == "") ≡ false
      → r.reply ≢ down
      → All (λ q. draws_other r.state q ≡ true) qs
      → again.state ≡ r.state
      → (callback lib idp public_host again later
          (serve_all qs (callback lib idp public_host r t st).0)).1
        ≡ refused
  callback-single_use t later r again qs st c s n others same =
      let spent =
        serve_all-Spent r.state qs (callback lib idp public_host r t st).0 others
          (callback-spends lib idp public_host r t st c s n) in
      callback-refused lib idp public_host again later _ (
        subst (λ k. Spent k (serve_all qs (callback lib idp public_host r t st).0).states)
          (sym same) spent)
