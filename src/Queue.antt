-- ===== src/Queue.antt =====
-- The jobs of the scan queue and their envelopes, services/shared/queue/redis/redis.go. The JSON of a
-- job is a parameter; `none` of a time stands for no signing.
use axiaops.Common.{
  if◌then◌else◌, ◌==◌, string_eq, nat_eq, ℕ, String, Bool, false, Option, none, some, List, [], ◌∷◌,
}
use axiaops.Common.Int.{ℤ, pos}
use axiaops.HttpAuth.{Wire, VerifyError, sign_envelope, verify_envelope, try_secrets}

pub record ScanJob : Type 0 where
  pub organization_id : String
  pub account_id : String
  pub enqueued_at : ℕ
  pub request_id : String
  pub timestamp : ℤ
  pub signature : String

module _ (w : Wire) (marshal : ScanJob → String) where
  -- The envelope that `Enqueue` pushes, at a time in seconds.
  unfoldable pub enqueue : String → ℕ → ScanJob → ScanJob
  unfolding sign_envelope
  enqueue secret now job =
      if secret == ""
      then job
      else let blank : ScanJob = record job { timestamp = pos now; signature = "" } in
        record blank { signature = sign_envelope w secret (pos now) (marshal blank) }

  -- `VerifyEnvelope` of the queue.
  unfoldable pub verify_job : String → ℕ → ℕ → ScanJob → Option VerifyError
  unfolding verify_envelope
  verify_job secret max_skew now job =
      if secret == ""
      then none
      else if job.signature == ""
      then some VerifyError.missing_signature
      else verify_envelope w secret max_skew now job.timestamp
          (marshal (record job { signature = "" })) job.signature

abbrev pub verdict : Bool × Option VerifyError → Option VerifyError
verdict (matched, last_err) = if matched then none else last_err

abbrev pub named : List String → List String
named [] = []
named (s ∷ secrets) = let rest = named secrets in if s == "" then rest else s ∷ rest

module _ (w : Wire) (marshal : ScanJob → String) where
  unfoldable pub verify_slots : List String → ℕ → ℕ → ScanJob → Option VerifyError
  unfolding verify_job try_secrets
  verify_slots secrets max_skew now job =
      verdict
        (try_secrets (λ s. verify_job w marshal s max_skew now job) (named secrets) (false, none))

  -- `verifyEnvelopeMultiSecret`
  unfoldable pub verify_envelope_multi_secret : List String → ℕ → ℕ → ScanJob → Option VerifyError
  unfolding verify_job verify_slots
  verify_envelope_multi_secret [] max_skew now job = verify_job w marshal "" max_skew now job
  verify_envelope_multi_secret (s ∷ secrets) max_skew now job =
      verify_slots (s ∷ secrets) max_skew now job

-- `envelopeReason`
unfoldable pub envelope_reason : VerifyError → String
envelope_reason VerifyError.missing_signature = "missing_signature"
envelope_reason VerifyError.malformed_signature = "malformed"
envelope_reason VerifyError.timestamp_skew = "timestamp_skew"
envelope_reason VerifyError.signature_mismatch = "signature_mismatch"
envelope_reason other = "unknown"
