-- ===== src/Command/Verify.antt =====
-- The verification of an image before it is stored: cosign.Config of pkg/cosign/verifier.go,
-- verifyAddImage and addImageVerifyConfig of cmd/hauler/cli/store/add.go, and resolveAndVerify,
-- pinDigest and logVerifyFailure of sync.go. The registry and cosign's verifier are parameters.
use hauler.Base.{
  ℕ, suc, Bool, true, false, not, ◌&&◌, ◌||◌, Option, none, some, [], Text, text_eq, if◌then◌else◌,
}
use hauler.Base.Int.{ℤ}
use hauler.Store.Add.{ImageRef}
use hauler.Retry.{RetryError, canceled, unsuccessful, retry_operation}

-- cosign.Config
pub record Config : Type 0 where
  pub key : Text
  pub tlog : Bool
  pub cert_identity : Text
  pub cert_identity_regexp : Text
  pub cert_oidc_issuer : Text
  pub cert_oidc_issuer_regexp : Text
  pub cert_github_workflow_repository : Text
  pub insecure_skip_tls_verify : Bool
  pub ca_file : Text

abbrev pub empty_config : Config
empty_config = record {
  key = [];
  tlog = false;
  cert_identity = [];
  cert_identity_regexp = [];
  cert_oidc_issuer = [];
  cert_oidc_issuer_regexp = [];
  cert_github_workflow_repository = [];
  insecure_skip_tls_verify = false;
  ca_file = [];
}

-- Config.Empty
unfoldable pub is_empty_config : Config → Bool
is_empty_config c =
    text_eq c.key []
    && not c.tlog
    && text_eq c.cert_identity []
    && text_eq c.cert_identity_regexp []
    && text_eq c.cert_oidc_issuer []
    && text_eq c.cert_oidc_issuer_regexp []
    && text_eq c.cert_github_workflow_repository []
    && not c.insecure_skip_tls_verify
    && text_eq c.ca_file []

-- Config.Keyless
is_keyless : Config → Bool
is_keyless c = text_eq c.key []

-- Config.validate: whether it accepts
validate : Config → Bool
unfolding is_keyless
validate c =
    is_keyless c
    || (text_eq c.cert_identity []
        && text_eq c.cert_identity_regexp []
        && text_eq c.cert_oidc_issuer []
        && text_eq c.cert_oidc_issuer_regexp []
        && text_eq c.cert_github_workflow_repository [])

-- the options of `store add image` that addImageVerifyConfig reads
abbrev pub AddImageOpts : Type 0
AddImageOpts = Config

-- addImageVerifyConfig: a key wins over an identity
unfoldable pub add_image_verify_config : AddImageOpts → Config
add_image_verify_config o =
    if not (text_eq o.key [])
    then record empty_config {
      key = o.key;
      tlog = o.tlog;
      insecure_skip_tls_verify = o.insecure_skip_tls_verify;
      ca_file = o.ca_file;
    }
    else if not (text_eq o.cert_identity_regexp []) || not (text_eq o.cert_identity [])
    then record o { key = []; tlog = false }
    else empty_config

-- What a check of a digest answers: `rejected` says whether the error is a cancellation.
pub data Checked : Type 0 where
  accepted : Checked
  rejected : Bool → Checked

-- The stages of a verifyError.
pub data Stage : Type 0 where
  parse_stage resolve_stage configure_stage signature_stage : Stage

-- verifyError, and errors.Is(err, context.Canceled) on it
pub record VerifyError : Type 0 where
  pub stage : Stage
  pub is_canceled : Bool

-- What a verification meets: ParseReference, the answers of remote.Head in order (the digest, or
-- whether the error is a cancellation), the name of a digest of the reference, NewVerifier (or
-- Cache.Get) and Verify, and the retries' context.
pub record Notary : Type 0 where
  pub parse : Text → Option ImageRef
  pub heads : ℕ → Checked
  pub head_digest : ℕ → Text
  pub at_digest : ImageRef → Text → Text
  pub configure : Config → Checked
  pub verify : Config → Text → Checked
  pub live : ℕ → Bool
  pub waits : ℕ → Bool
  pub retries : ℤ

-- the calls of remote.Head so far, and the digest of the last that succeeded
pub record Pin : Type 0 where
  pub calls : ℕ
  pub pinned : Text

-- one attempt of pinDigest
unfoldable pub head_once : Notary → Pin → Option Bool × Pin
head_once n p = elim (n.heads p.calls) [
  | accepted ↦ (none, record { calls = suc p.calls; pinned = n.head_digest p.calls })
  | rejected c ↦ (some c, record p { calls = suc p.calls })
]

-- errors.Is(err, context.Canceled) on what retry.Operation returns
is_cancellation : RetryError Bool → Bool
is_cancellation canceled = true
is_cancellation (unsuccessful n none) = false
is_cancellation (unsuccessful n (some c)) = c

-- pinDigest
unfoldable pub pin_digest : Notary → Bool → Option (RetryError Bool) × Text
unfolding head_once
pin_digest n ignore_errors =
    let r =
      retry_operation (head_once n) (λ e. false) n.live n.waits ignore_errors n.retries
        (record { calls = 0; pinned = [] }) in
    elim r.result [ none ↦ (none, r.state.pinned) | some e ↦ (some e, []) ]

-- the check of the pinned digest: the error of NewVerifier, or else that of Verify
unfoldable pub check_pinned : Notary → Config → ImageRef → Text → Option VerifyError
check_pinned n cfg ref pinned = elim (n.configure cfg) [
  | rejected c ↦ some record { stage = configure_stage; is_canceled = c }
  | accepted ↦ elim (n.verify cfg (n.at_digest ref pinned)) [
    | rejected c ↦ some record { stage = signature_stage; is_canceled = c }
    | accepted ↦ none
  ]
]

-- resolveAndVerify and verifyAddImage: the digest that was pinned, and the error
unfoldable pub resolve_and_verify : Notary → Bool → Config → Text → Text × Option VerifyError
unfolding is_empty_config is_cancellation pin_digest check_pinned
resolve_and_verify n ignore_errors cfg name =
    if is_empty_config cfg then ([], none) else elim (n.parse name) [
      | none ↦ ([], some record { stage = parse_stage; is_canceled = false })
      | some ref ↦ elim (pin_digest n ignore_errors).0 [
        | some e ↦ ([], some record { stage = resolve_stage; is_canceled = is_cancellation e })
        | none ↦
            ((pin_digest n ignore_errors).1, check_pinned n cfg ref (pin_digest n ignore_errors).1)
      ]
    ]

-- logVerifyFailure: whether the failure ends the run
unfoldable pub propagates : VerifyError → Bool → Bool
propagates e ignore_errors = e.is_canceled || not ignore_errors
