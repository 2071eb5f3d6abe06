-- ===== src/Oidc/Callback/Enter/Spent.antt =====
-- A state that the cache no longer holds.
use axiaops.Common.{
  if◌then◌else◌, Bool-cases, or_else, ◌==◌, string_eq, nat_eq, ℕ, ◌+◌, String, ◌≡◌, refl, ap, ◌≢◌,
  inl, inr, Bool, true, false, not, ◌||◌, Option, none, some, List, arith,
}
use text.Mathlib.TextLemmas.{append_cancel_left}
use axiaops.Common.Dict.{lookup, lookup-insert, lookup-erase}
use axiaops.Cache.{Cache, get_del, set}
use axiaops.Oidc.{
  Library, SsoConnection, get_sso_connection_by_id, StateData, state_ttl, state_key, generate_state,
  persist, Reply, answered, lost, down, ConsumeError, state_not_found, state_unread, consume,
}
use axiaops.Oidc.Token.{Idp, DiscoveryDoc, discovery}
use axiaops.Oidc.Initiate.{
  validated_return_to, InitiateAnswer, missing_id, internal_error, not_active, not_oidc,
  misconfigured, discovery_unavailable, InitiateRequest, stored, generated, discovered, started,
  initiate,
}

abbrev pub Spent : String → Cache StateData → Type 0
Spent state c = lookup (state_key state) c.items ≡ none

pub consume-Spent :
    (reply : Reply) (cache_now now : ℕ) (state used : String) (c : Cache StateData)
    → Spent state c
    → Spent state (consume reply cache_now now used c).0
unfolding consume get_del
consume-Spent answered cache_now now state used c h =
    ground (arith, lookup-erase (state_key state) (state_key used) c.items)
consume-Spent lost cache_now now state used c h =
    ground (arith, lookup-erase (state_key state) (state_key used) c.items)
consume-Spent down cache_now now state used c h = ground arith

pub consume-spends :
    (reply : Reply) (cache_now now : ℕ) (state : String) (c : Cache StateData)
    → (state == "") ≡ false
    → reply ≢ down
    → Spent state (consume reply cache_now now state c).0
unfolding consume get_del
consume-spends answered cache_now now state c h n =
    ground (arith, lookup-erase (state_key state) (state_key state) c.items)
consume-spends lost cache_now now state c h n =
    ground (arith, lookup-erase (state_key state) (state_key state) c.items)
consume-spends down cache_now now state c h n = elim (n refl) [ ]

-- A state that is spent is not found.
pub consume-refused :
    (reply : Reply) (cache_now now : ℕ) (state : String) (c : Cache StateData)
    → Spent state c
    → (err : ConsumeError) × ((consume reply cache_now now state c).1 ≡ inl err)
unfolding consume get_del
consume-refused answered cache_now now state c h = (state_not_found, ground arith)
consume-refused lost cache_now now state c h = elim (Bool-cases (state == "")) [
  | inl e ↦ (state_not_found, ground (arith, e))
  | inr e ↦ (state_unread, ground (arith, e))
]
consume-refused down cache_now now state c h = elim (Bool-cases (state == "")) [
  | inl e ↦ (state_not_found, ground (arith, e))
  | inr e ↦ (state_unread, ground (arith, e))
]

state_key-other :
    (state stored : String)
    → (stored == state) ≡ false
    → (state_key state == state_key stored) ≡ false
state_key-other state stored n = elim (Bool-cases (state_key state == state_key stored)) [
  | inl e ↦
      (let same : state_key state ≡ state_key stored = ground (arith, e) in
        let drawn : state ≡ stored = append_cancel_left "sso:state:" state stored same in
        ground (arith, drawn, n))
  | inr e ↦ e
]

persist-Spent :
    (works : Bool) (now : ℕ) (state stored : String) (d : StateData) (c c' : Cache StateData)
    → (stored == state) ≡ false
    → Spent state c
    → persist works now stored d c ≡ some c'
    → Spent state c'
unfolding persist set
persist-Spent works now state stored d c c' n h e = ground (
  arith,
  state_key-other state stored n,
  lookup-insert (state_key state) (state_key stored)
      (record { value = d; expires_at = now + state_ttl }) c.items,
)

module _ (lib : Library) (idp : Idp) (public_host : String) (r : InitiateRequest)
    (state : String) where
  stored-Spent :
      (c : Cache StateData) (conn : SsoConnection) (doc : DiscoveryDoc) (s : String) (d : StateData)
      (found : Option (Cache StateData))
      → Spent state c
      → ((c' : Cache StateData) → found ≡ some c' → Spent state c')
      → Spent state (stored lib idp public_host r c conn doc s d found).0
  stored-Spent c conn doc s d none h k = h
  stored-Spent c conn doc s d (some c') h k = k c' refl

  generated-Spent :
      (c : Cache StateData) (conn : SsoConnection) (doc : DiscoveryDoc)
      (found : Option (String × StateData))
      → Spent state c
      → ((s : String) (d : StateData) → found ≡ some (s, d) → (s == state) ≡ false)
      → Spent state (generated lib idp public_host r c conn doc found).0
  generated-Spent c conn doc none h k = h
  generated-Spent c conn doc (some (s, d)) h k =
      stored-Spent c conn doc s d _ h
        (λ c' e. persist-Spent r.set_works r.stored_at state s d c c' (k s d refl) h e)

  generate_state-draw :
      (a b n : Option String) (now : ℕ) (cid redirect : String) (s : String) (d : StateData)
      → generate_state a b n now cid redirect ≡ some (s, d)
      → a ≡ some s
  unfolding generate_state
  generate_state-draw none b n now cid redirect s d e = cc
  generate_state-draw (some a) none n now cid redirect s d e = cc
  generate_state-draw (some a) (some b) none now cid redirect s d e = cc
  generate_state-draw (some a) (some b) (some n) now cid redirect s d e = ground arith

  either-Spent :
      (b : Bool) (x y : Cache StateData × InitiateAnswer)
      → Spent state x.0
      → Spent state y.0
      → Spent state (if b then x else y).0
  either-Spent true x y h k = h
  either-Spent false x y h k = k

  module _ (c : Cache StateData) (n : not (or_else r.state_draw "" == state) ≡ true)
      (h : Spent state c) where
    discovered-Spent :
        (conn : SsoConnection) (found : Option DiscoveryDoc)
        → Spent state (discovered lib idp public_host r c conn found).0
    discovered-Spent conn none = h
    discovered-Spent conn (some doc) =
        either-Spent (doc.authorization_endpoint == "") (c, discovery_unavailable) _ h
          (generated-Spent c conn doc _ h (λ s d e.
            let drawn =
              generate_state-draw r.state_draw r.verifier_draw r.nonce_draw r.drawn_at r.cid
                (validated_return_to lib r.return_to) s d e in
            let is_s : or_else r.state_draw "" ≡ s = ap (λ o. or_else o "") drawn in
            ground (arith, is_s, n)))

    started-Spent :
        (found : Option SsoConnection) → Spent state (started lib idp public_host r c found).0
    started-Spent none = h
    started-Spent (some conn) =
        either-Spent (not (conn.status == "active")) (c, not_active) _ h
          (either-Spent (not (conn.protocol == "oidc")) (c, not_oidc) _ h
            (either-Spent (conn.oidc_client_id == "" || conn.oidc_discovery_url == "")
              (c, misconfigured) _ h (discovered-Spent conn (discovery idp conn))))

    pub initiate-Spent :
        (connections : List SsoConnection)
        → Spent state (initiate lib idp public_host r connections c).0
    unfolding initiate
    initiate-Spent connections =
        either-Spent (r.cid == "") (c, missing_id) _ h
          (either-Spent (not r.connection_query_works) (c, internal_error) _ h
            (started-Spent (get_sso_connection_by_id r.cid connections)))
