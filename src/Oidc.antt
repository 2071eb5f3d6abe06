-- ===== src/Oidc.antt =====
-- The login by OIDC, services/api/internal/sso: the state of a ceremony (state.go), the tables that
-- its handlers read (`SSOConnection`, `SSODomain` of services/shared/model/sso.go, with
-- `GetSSOConnectionByID` and `GetVerifiedSSODomainByName`), and the fallible steps that the child
-- modules chain. The functions of Go's library on texts and URLs and the decryption are the fields
-- of `Library`, the identity provider is `Idp`. The cache holds the state itself for its JSON.
pub mod Token
pub mod Identity
pub mod Initiate
pub mod Callback
use axiaops.Common.{
  ltb, if◌then◌else◌, ◌==◌, string_eq, nat_eq, ℕ, ◌+◌, ◌-◌, ◌<◌, String, ◌<>◌, ◌≡◌, refl, ◌⊎◌, inl,
  inr, Bool, true, false, not, ◌&&◌, ◌||◌, Option, none, some, List, [], ◌∷◌, arith,
}
use axiaops.Cache.{Cache, set, get_del}

-- TrimSpace, ToLower, net/mail's ParseAddress, whether url.Parse takes a text, whether it finds
-- neither scheme nor host in it, the base64url text of SHA-256, and crypto.Decrypt.
pub record Library : Type 0 where
  pub trim_space : String → String
  pub lower : String → String
  pub is_address : String → Bool
  pub is_url : String → Bool
  pub is_local_url : String → Bool
  pub code_challenge : String → String
  pub decrypt : String → Option String

-- `SSOConnection`, the fields that the ceremony reads.
pub record SsoConnection : Type 0 where
  pub id : String
  pub organization_id : String
  pub protocol : String
  pub status : String
  pub default_role : String
  pub oidc_client_id : String
  pub oidc_client_secret_ciphertext : String
  pub oidc_discovery_url : String
  pub oidc_tenant_id : String
  pub force_reauth : Bool

pub record SsoDomain : Type 0 where
  pub organization_id : String
  pub sso_connection_id : String
  pub domain : String
  pub status : String

-- `GetSSOConnectionByID`
unfoldable pub get_sso_connection_by_id : String → List SsoConnection → Option SsoConnection
get_sso_connection_by_id id [] = none
get_sso_connection_by_id id (c ∷ cs) = if c.id == id then some c else get_sso_connection_by_id id cs

-- `GetVerifiedSSODomainByName`
unfoldable pub get_verified_sso_domain_by_name :
    (String → String) → String → List SsoDomain → Option SsoDomain
get_verified_sso_domain_by_name lower domain [] = none
get_verified_sso_domain_by_name lower domain (d ∷ ds) =
    if lower d.domain == lower domain && d.status == "verified"
    then some d
    else get_verified_sso_domain_by_name lower domain ds

pub record StateData : Type 0 where
  pub cid : String
  pub code_verifier : String
  pub nonce : String
  pub redirect_after_login : String
  pub expires_at : ℕ

abbrev pub state_ttl : ℕ
state_ttl = 600_000_000_000

abbrev pub state_key : String → String
state_key state = "sso:state:" <> state

-- `GenerateState`, from the draws for the state, the verifier and the nonce, which may fail.
unfoldable pub generate_state :
    Option String
    → Option String
    → Option String
    → ℕ
    → String
    → String
    → Option (String × StateData)
generate_state none verifier n now cid redirect = none
generate_state (some state) none n now cid redirect = none
generate_state (some state) (some verifier) none now cid redirect = none
generate_state (some state) (some verifier) (some n) now cid redirect = some (
  state,
  record {
    cid = cid;
    code_verifier = verifier;
    nonce = n;
    redirect_after_login = redirect;
    expires_at = now + state_ttl;
  },
)

-- `Persist`; the flag is whether the cache's `Set` works, and `none` is an error.
unfoldable pub persist : Bool → ℕ → String → StateData → Cache StateData → Option (Cache StateData)
unfolding set
persist works now state d c =
    if state == "" || not works then none else some (set now (state_key state) d state_ttl c)

-- What comes of a `GetDel`: it is answered; it is done and the answer is lost; it is not done.
pub data Reply : Type 0 where
  answered lost down : Reply

pub data ConsumeError : Type 0 where
  state_not_found state_unread : ConsumeError

abbrev pub consumed : ℕ → Option StateData → ConsumeError ⊎ StateData
consumed now none = inl state_not_found
consumed now (some d) = if ltb d.expires_at now then inl state_not_found else inr d

abbrev pub replied :
    Reply
    → ℕ
    → Cache StateData
    → Cache StateData × Option StateData
    → Cache StateData × (ConsumeError ⊎ StateData)
replied answered now c (c', found) = (c', consumed now found)
replied lost now c (c', found) = (c', inl state_unread)
replied down now c (c', found) = (c, inl state_unread)

-- `Consume`; the cache and the check of the expiry read the clock one after the other.
unfoldable pub consume :
    Reply → ℕ → ℕ → String → Cache StateData → Cache StateData × (ConsumeError ⊎ StateData)
unfolding get_del
consume reply cache_now now state c =
    if state == ""
    then (c, inl state_not_found)
    else replied reply now c (get_del cache_now (state_key state) c)

-- A step that gives a value or the bucket of its failure.
infixl 5 ◌>>=◌
abbrev pub ◌>>=◌ {ℓ κ} : {A : Type ℓ} {B : Type κ} → String ⊎ A → (A → String ⊎ B) → String ⊎ B
inl reason >>= k = inl reason
inr a >>= k = k a

infixl 5 ◌>>◌
abbrev pub ◌>>◌ {ℓ} : {B : Type ℓ} → String ⊎ Bool → String ⊎ B → String ⊎ B
m >> k = m >>= λ _. k

abbrev pub demand {ℓ} : {A : Type ℓ} → Option A → String → String ⊎ A
demand none reason = inl reason
demand (some a) reason = inr a

abbrev pub require : Bool → String → String ⊎ Bool
require true reason = inr true
require false reason = inl reason

pub demand->>= {ℓ κ} :
    {A : Type ℓ} {B : Type κ} (o : Option A) (reason : String) (k : A → String ⊎ B) {b : B}
    → (demand o reason >>= k) ≡ inr b
    → (a : A) × (o ≡ some a) × (k a ≡ inr b)
demand->>= none reason k h = cc
demand->>= (some a) reason k h = (a, refl, h)

pub require->> {κ} :
    {B : Type κ} (b : Bool) (reason : String) (m : String ⊎ B) {v : B}
    → (require b reason >> m) ≡ inr v
    → (b ≡ true) × (m ≡ inr v)
require->> true reason m h = (refl, h)
require->> false reason m h = cc
