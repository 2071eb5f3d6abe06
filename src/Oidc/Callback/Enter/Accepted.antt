-- ===== src/Oidc/Callback/Enter/Accepted.antt =====
-- Who the callback lets in.
use axiaops.Common.{
  if◌then◌else◌, Bool-cases, ◌==◌, string_eq, nat_eq, String, ◌≡◌, refl, sym, ap, ◌∙◌, ◌⊎◌, inl,
  inr, Bool, true, false, not, ◌&&◌, ◌||◌, Option, none, some, arith,
}
use mathlib.Core.Path.{subst}
use axiaops.Cache.{Cache}
use axiaops.Session.{Session}
use axiaops.Oidc.{
  Library, SsoConnection, SsoDomain, get_sso_connection_by_id, StateData, ConsumeError, consume,
  demand->>=, require->>,
}
use axiaops.Oidc.Token.{Idp, Claims, DiscoveryDoc, discovery, exchange_code, validate_id_token}
use axiaops.Oidc.Identity.{Identity, extract_claims}
use axiaops.Oidc.Callback.{
  CallbackRequest, SsoTables, CallbackState, decrypt_client_secret, code_exchange, is_domain_of,
  domain_of, identify,
}
use axiaops.Oidc.Callback.Enter.{
  CallbackAnswer, entered, identified, located, resumed, with_states, callback,
}
use axiaops.Oidc.Callback.Enter.Joined.{LoggedIn, enter-LoggedIn}

-- What the identity of a login rests on: an active OIDC connection, a token that the provider
-- gave for the code and the state's verifier and that passes with the state's nonce, and a verified
-- domain of the connection.
abbrev pub Authenticated :
    Library
    → Idp
    → String
    → CallbackRequest
    → SsoTables
    → SsoConnection
    → StateData
    → Identity
    → Type 0
Authenticated lib idp public_host r t conn d i =
    ((conn.status == "active" && conn.protocol == "oidc") ≡ true)
    × (secret id_token : String) × (doc : DiscoveryDoc) × (claims : Claims) × (dom : SsoDomain)
    × (exchange_code idp doc.token_endpoint (code_exchange lib idp public_host r conn d secret)
        ≡ some id_token)
    × (validate_id_token idp r.now conn id_token d.nonce ≡ some claims)
    × (extract_claims lib.is_address claims conn ≡ some i)
    × (domain_of lib idp public_host r t i.email ≡ some dom)
    × (is_domain_of lib idp public_host r conn dom ≡ true)

module _ (lib : Library) (idp : Idp) (public_host : String) (r : CallbackRequest)
    (t : SsoTables) where
  identify-Authenticated :
      (conn : SsoConnection) (d : StateData) (i : Identity)
      → identify lib idp public_host r t conn d ≡ inr i
      → Authenticated lib idp public_host r t conn d i
  unfolding identify
  identify-Authenticated conn d i h =
      let (active, h1) = require->> (conn.status == "active" && conn.protocol == "oidc") _ _ h in
      let (secret, e2, h2) = demand->>= (decrypt_client_secret lib idp public_host r conn) _ _ h1 in
      let (doc, e3, h3) = demand->>= (discovery idp conn) _ _ h2 in
      let (id_token, exchanged, h4) =
        demand->>=
          (exchange_code idp doc.token_endpoint (code_exchange lib idp public_host r conn d secret))
          _ _ h3 in
      let (claims, valid, h5) =
        demand->>= (validate_id_token idp r.now conn id_token d.nonce) _ _ h4 in
      let (j, named, h6) = demand->>= (extract_claims lib.is_address claims conn) _ _ h5 in
      let (dom, located, h7) = demand->>= (domain_of lib idp public_host r t j.email) _ _ h6 in
      let (ours, same) = require->> (is_domain_of lib idp public_host r conn dom) _ _ h7 in
      let is_i : j ≡ i = cc in
      (
        active,
        secret,
        id_token,
        doc,
        claims,
        dom,
        exchanged,
        valid,
        named ∙ ap some is_i,
        subst (λ (k : Identity). domain_of lib idp public_host r t k.email ≡ some dom) is_i located,
        ours,
      )

module _ (lib : Library) (idp : Idp) (public_host : String) (r : CallbackRequest) (t : SsoTables)
    (target : String) (s : Session) where
  -- The login of the identity that the ceremony's connection gives.
  abbrev pub Located : StateData → CallbackState → CallbackState → Type 0
  Located d st after =
      (conn : SsoConnection) × (i : Identity) × (get_sso_connection_by_id d.cid t.connections
        ≡ some conn)
      × Authenticated lib idp public_host r t conn d i
      × LoggedIn lib r d conn target s i st after

  -- The path agrees with the state.
  abbrev pub Accepted : StateData → CallbackState → CallbackState → Type 0
  Accepted d st after = ((r.path_cid == "" || d.cid == r.path_cid) ≡ true) × Located d st after

  identified-Accepted :
      (st : CallbackState) (d : StateData) (conn : SsoConnection) (found : String ⊎ Identity)
      → identify lib idp public_host r t conn d ≡ found
      → (identified lib r d conn t st found).1 ≡ entered target s
      → (i : Identity) × Authenticated lib idp public_host r t conn d i
        × LoggedIn lib r d conn target s i st (identified lib r d conn t st found).0
  identified-Accepted st d conn (inl reason) e h = cc
  identified-Accepted st d conn (inr i) e h = (
    i,
    identify-Authenticated lib idp public_host r t conn d i e,
    enter-LoggedIn lib r d conn target s t st i h,
  )

  located-Located :
      (st : CallbackState) (d : StateData) (found : Option SsoConnection)
      → get_sso_connection_by_id d.cid t.connections ≡ found
      → (located lib idp public_host r t st d found).1 ≡ entered target s
      → Located d st (located lib idp public_host r t st d found).0
  located-Located st d none e h = cc
  located-Located st d (some conn) e h =
      let (i, known, logged_in) = identified-Accepted st d conn _ refl h in
      (conn, i, e, known, logged_in)

  abbrev queried : StateData → Bool → Option SsoConnection
  queried d works = if works then get_sso_connection_by_id d.cid t.connections else none

  queried-Located :
      (st : CallbackState) (d : StateData) (works : Bool)
      → (located lib idp public_host r t st d (queried d works)).1 ≡ entered target s
      → Located d st (located lib idp public_host r t st d (queried d works)).0
  queried-Located st d true h = located-Located st d _ refl h
  queried-Located st d false h = cc

  resumed-Accepted :
      (st : CallbackState) (d : StateData)
      → (resumed lib idp public_host r t st (inr d)).1 ≡ entered target s
      → Accepted d st (resumed lib idp public_host r t st (inr d)).0
  resumed-Accepted st d h =
      elim (Bool-cases (not (r.path_cid == "") && not (d.cid == r.path_cid))) [
        | inl b ↦ ground (arith, b, h)
        | inr b ↦
            (let went : resumed lib idp public_host r t st (inr d)
                  ≡ located lib idp public_host r t st d (queried d r.connection_query_works) =
                rw b refl in
              let rest =
                subst (λ (x : CallbackState × CallbackAnswer). Located d st x.0) (sym went)
                  (queried-Located st d r.connection_query_works
                    (ap (λ (x : CallbackState × CallbackAnswer). x.1) (sym went) ∙ h)) in
              (ground (arith, b), rest))
      ]

  with_states-Accepted :
      (st : CallbackState) (a : Cache StateData × (ConsumeError ⊎ StateData))
      → (with_states lib idp public_host r t st a).1 ≡ entered target s
      → (d : StateData) × (states : Cache StateData) × (a ≡ (states, inr d))
        × Accepted d st (with_states lib idp public_host r t st a).0
  with_states-Accepted st (states, inl err) h = cc
  with_states-Accepted st (states, inr d) h =
      (d, states, refl, resumed-Accepted (record st { states = states }) d h)

  -- A callback that logs in carried a code, and a state that the cache gave up and that had not
  -- expired; the state names the connection of the login, the same as the path if that names one,
  -- which is active; the identity comes from a token that the provider gave for the code and the
  -- state's verifier and that passes with the state's nonce, and its email is in a verified domain of
  -- that connection. The user has the subject of the token as external identifier, the session is
  -- for that user in the connection's organization, the user is a member of it, and the redirect
  -- goes to the state's target.
  pub callback-Accepted :
      (st : CallbackState)
      → (callback lib idp public_host r t st).1 ≡ entered target s
      → (d : StateData) × (states : Cache StateData) × ((r.code == "") ≡ false)
        × (consume r.reply r.cache_now r.now r.state st.states ≡ (states, inr d))
        × Accepted d st (callback lib idp public_host r t st).0
  unfolding callback
  callback-Accepted st h = elim (Bool-cases (r.code == "" || r.state == "")) [
    | inl b ↦ ground (arith, b, h)
    | inr b ↦
        (let went : callback lib idp public_host r t st
              ≡ with_states lib idp public_host r t st
                  (consume r.reply r.cache_now r.now r.state st.states) =
            rw b refl in
          let (d, states, e, rest) =
            with_states-Accepted st _
              (ap (λ (x : CallbackState × CallbackAnswer). x.1) (sym went) ∙ h) in
          (
            d,
            states,
            ground (arith, b),
            e,
            subst (λ (x : CallbackState × CallbackAnswer). Accepted d st x.0) (sym went) rest,
          ))
  ]
