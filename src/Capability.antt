-- ===== src/Capability.antt =====
-- src/etl_agent/harness/capability.py and actions.py: capability tokens. JSON, Base64URL and Ed25519
-- are the parameters `Codec`; a token is text, `header.payload.signature`.
pub mod Split
pub mod Laws
pub mod Replay
use etl_agent.Prelude.{
  ℕ, ◌+◌, String, Bool, true, false, ◌&&◌, not, Option, none, some, List, [], ◌∷◌, ◌++◌, ltb, leb,
  ◌==◌, if◌then◌else◌, str_eq, length, min, max,
}
use etl_agent.Prelude.Text.{Text, codes}
use etl_agent.Prelude.Result.{Result, ok, err, ◌>>=◌, ◌>>◌, guard, require}

-- `schema_version` is the constant that its pattern demands
pub record CapabilityClaims : Type 0 where
  pub jti : ℕ
  pub subject : ℕ
  pub tool : String
  pub environment : Text
  pub preparation_id : ℕ
  pub artifact_digest : String
  pub issued_at : ℕ
  pub expires_at : ℕ

-- What a part of a token may hold: the fixed header, claims, another JSON object, or another value.
pub data Part : Type 0 where
  header : String → String → ℕ → Part
  claims : CapabilityClaims → Part
  other_object : Text → Part
  not_object : Text → Part

pub data CapabilityError : Type 0 where
  bad_format bad_encoding not_an_object bad_header bad_signature bad_claims : CapabilityError
  expired issued_in_future bad_lifetime : CapabilityError

-- the third-party operations: `json`, `base64` without padding, and Ed25519 keys
pub record Codec (PrivateKey PublicKey : Type 0) : Type 0 where
  pub dumps : Part → Text
  pub loads : Text → Option Part
  pub b64encode : Text → Text
  pub b64decode : Text → Option Text
  pub sign : PrivateKey → Text → Text
  pub verify : PublicKey → Text → Text → Bool

abbrev pub dot : ℕ
dot = b'.'

abbrev pub cons_head : ℕ → List Text → List Text
cons_head c [] = (c ∷ []) ∷ []
cons_head c (part ∷ parts) = (c ∷ part) ∷ parts

-- `token.split(".")`
unfoldable pub split_dot : Text → List Text
split_dot [] = [] ∷ []
split_dot (c ∷ s) = let rest = split_dot s in if c == dot then [] ∷ rest else cons_head c rest

-- the constraints that pydantic puts on the claims
unfoldable pub are_valid_claims : CapabilityClaims → Bool
are_valid_claims c =
    leb 1 (length (codes c.tool))
    && leb (length (codes c.tool)) 128
    && leb 1 (length c.environment)
    && leb (length c.environment) 32
    && (length (codes c.artifact_digest) == 64)
    && ltb 0 c.issued_at
    && ltb 0 c.expires_at

abbrev pub capability_header : Part
capability_header = header "EdDSA" "capability+jwt" 1

-- `header != _HEADER`
abbrev pub is_header : Part → Bool
is_header (header alg typ v) = str_eq alg "EdDSA" && str_eq typ "capability+jwt" && v == 1
is_header _ = false

abbrev pub as_object : Part → Result CapabilityError Part
as_object (not_object _) = err not_an_object
as_object part = ok part

-- `CapabilityClaims.model_validate`
abbrev pub as_claims : Part → Result CapabilityError CapabilityClaims
as_claims (claims c) = if are_valid_claims c then ok c else err bad_claims
as_claims _ = err bad_claims

-- actions.py: the claims of an execution action, with the lifetime clamped to [60, 3600]
unfoldable pub action_claims : ℕ → String → Text → ℕ → String → ℕ → ℕ → ℕ → CapabilityClaims
action_claims subject tool environment preparation_id artifact_digest ttl_seconds jti issued_at =
    let ttl = max 60 (min ttl_seconds 3600) in
    record {
      jti = jti;
      subject = subject;
      tool = tool;
      environment = environment;
      preparation_id = preparation_id;
      artifact_digest = artifact_digest;
      issued_at = issued_at;
      expires_at = issued_at + ttl;
    }

module _ {PrivateKey PublicKey : Type 0} (codec : Codec PrivateKey PublicKey) where
  unfoldable pub encode_part : Part → Text
  encode_part value = codec.b64encode (codec.dumps value)

  unfoldable pub decode_part : Text → Result CapabilityError Part
  decode_part value = do
    raw ← require (codec.b64decode value) bad_encoding
    decoded ← require (codec.loads raw) bad_encoding
    as_object decoded

  unfoldable pub issue_capability : CapabilityClaims → PrivateKey → Result CapabilityError Text
  issue_capability c private_key = do
    guard (ltb c.issued_at c.expires_at) bad_lifetime
    let encoded_header = encode_part capability_header
    let encoded_payload = encode_part (claims c)
    let signature = codec.sign private_key (encoded_header ++ (dot ∷ encoded_payload))
    ok (encoded_header ++ (dot ∷ (encoded_payload ++ (dot ∷ codec.b64encode signature))))

  unfoldable pub verify_parts :
      Text → Text → Text → PublicKey → ℕ → ℕ → Result CapabilityError CapabilityClaims
  verify_parts encoded_header encoded_payload encoded_signature public_key now skew = do
    decoded_header ← decode_part encoded_header
    guard (is_header decoded_header) bad_header
    signature ← require (codec.b64decode encoded_signature) bad_signature
    guard (codec.verify public_key signature (encoded_header ++ (dot ∷ encoded_payload)))
        bad_signature
    payload ← decode_part encoded_payload
    c ← as_claims payload
    guard (ltb now c.expires_at) expired
    guard (leb c.issued_at (now + skew)) issued_in_future
    ok c

  abbrev pub verify_split : List Text → PublicKey → ℕ → ℕ → Result CapabilityError CapabilityClaims
  verify_split (h ∷ p ∷ s ∷ []) public_key now skew = verify_parts h p s public_key now skew
  verify_split _ public_key now skew = err bad_format

  unfoldable pub verify_capability :
      Text → PublicKey → ℕ → ℕ → Result CapabilityError CapabilityClaims
  verify_capability token public_key now clock_skew_seconds =
      verify_split (split_dot token) public_key now clock_skew_seconds

  -- the constructor `CapabilityClaims(...)` validates before the token is issued
  unfoldable pub issue_valid : CapabilityClaims → PrivateKey → Result CapabilityError Text
  issue_valid c private_key = do
    guard (are_valid_claims c) bad_claims
    issue_capability c private_key

  unfoldable pub issue_execution_action_capability :
      PrivateKey → ℕ → String → Text → ℕ → String → ℕ → ℕ → ℕ → Result CapabilityError Text
  unfolding issue_valid
  issue_execution_action_capability private_key subject tool environment preparation_id
        artifact_digest ttl_seconds jti issued_at =
      issue_valid
        (action_claims subject tool environment preparation_id artifact_digest ttl_seconds jti
          issued_at)
        private_key
