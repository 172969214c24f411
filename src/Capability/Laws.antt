-- ===== src/Capability/Laws.antt =====
-- Issuing and verifying a capability, under what the third-party operations promise.
use etl_agent.Prelude.{
  sym, ap, subst, ◌∙◌, String, eq_iff, ℕ, ◌+◌, ◌≤◌, ◌<◌, ◌≡◌, refl, true, some, List, [], ◌∷◌, ◌++◌,
  ltb, leb, arith,
}
use etl_agent.Prelude.Text.{Text}
use etl_agent.Prelude.Result.{ok, ◌>>◌, guard, require, >>=-eq-ok, guard-eq-ok, require-eq-ok}
use etl_agent.Capability.{
  action_claims, header, other_object, not_object, bad_header, bad_signature, expired,
  issued_in_future, CapabilityClaims, Part, Codec, claims, are_valid_claims, dot, split_dot,
  encode_part, decode_part, capability_header, is_header, issue_capability, verify_parts,
  verify_split, verify_capability, issue_execution_action_capability, as_object, as_claims,
}
use etl_agent.Capability.Split.{HasNoDot, split_dot-append, split_dot-part, join_dot, join-split}

-- The decoders invert the encoders, Base64URL has no dot, and a signature verifies under the key's
-- public half.
pub record CodecLaws {PrivateKey PublicKey : Type 0} (codec : Codec PrivateKey PublicKey)
    (public_half : PrivateKey → PublicKey) : Type 0 where
  pub loads-dumps : (p : Part) → codec.loads (codec.dumps p) ≡ some p
  pub b64decode-b64encode : (s : Text) → codec.b64decode (codec.b64encode s) ≡ some s
  pub b64encode-HasNoDot : (s : Text) → HasNoDot (codec.b64encode s)
  pub verify-sign :
      (k : PrivateKey) (m : Text) → codec.verify (public_half k) (codec.sign k m) m ≡ true

module _ {PrivateKey PublicKey : Type 0} (codec : Codec PrivateKey PublicKey)
    (public_half : PrivateKey → PublicKey) (laws : CodecLaws codec public_half) where
  decode_part-encode_part : (p : Part) → decode_part codec (encode_part codec p) ≡ as_object p
  unfolding decode_part encode_part
  decode_part-encode_part p = rw (laws.b64decode-b64encode (codec.dumps p), laws.loads-dumps p)

  split-issued :
      (h p s : Text)
      → HasNoDot h
      → HasNoDot p
      → HasNoDot s
      → split_dot (h ++ (dot ∷ (p ++ (dot ∷ s)))) ≡ h ∷ p ∷ s ∷ []
  split-issued h p s nh np ns =
      rw (split_dot-append h (p ++ (dot ∷ s)) nh, split_dot-append p s np, split_dot-part s ns)

  abbrev signing_input : CapabilityClaims → Text
  signing_input c = encode_part codec capability_header ++ (dot ∷ encode_part codec (claims c))

  abbrev signature_of : CapabilityClaims → PrivateKey → Text
  signature_of c key = codec.b64encode (codec.sign key (signing_input c))

  abbrev token_of : CapabilityClaims → PrivateKey → Text
  token_of c key =
      encode_part codec capability_header
      ++ (dot ∷ (encode_part codec (claims c) ++ (dot ∷ signature_of c key)))

  issue-token_of :
      (c : CapabilityClaims) (key : PrivateKey) {token : Text}
      → issue_capability codec c key ≡ ok token
      → token ≡ token_of c key
  unfolding issue_capability
  issue-token_of c key h = ground arith

  encode_part-HasNoDot : (p : Part) → HasNoDot (encode_part codec p)
  unfolding encode_part
  encode_part-HasNoDot p = laws.b64encode-HasNoDot (codec.dumps p)

  verify_parts-issued :
      (c : CapabilityClaims) (key : PrivateKey) (now skew : ℕ)
      → are_valid_claims c ≡ true
      → now < c.expires_at
      → c.issued_at ≤ now + skew
      → verify_parts codec
          (encode_part codec capability_header)
          (encode_part codec (claims c))
          (signature_of c key)
          (public_half key)
          now
          skew
        ≡ ok c
  unfolding verify_parts
  verify_parts-issued c key now skew valid alive in_time =
      rw
        (
          decode_part-encode_part capability_header,
          laws.b64decode-b64encode (codec.sign key (signing_input c)),
          laws.verify-sign key (signing_input c),
          decode_part-encode_part (claims c),
          valid,
        )
        (ground arith)

  -- A token issued for valid claims verifies under the public half of its key, and gives the claims
  -- back, at every time before the expiry that lies at most the allowed skew before the issue.
  pub verify-issue :
      (c : CapabilityClaims) (key : PrivateKey) (now skew : ℕ) {token : Text}
      → issue_capability codec c key ≡ ok token
      → are_valid_claims c ≡ true
      → now < c.expires_at
      → c.issued_at ≤ now + skew
      → verify_capability codec token (public_half key) now skew ≡ ok c
  unfolding verify_capability
  verify-issue c key now skew issued valid alive in_time = rw (issue-token_of c key issued) (
      rw
        (split-issued (encode_part codec capability_header) (encode_part codec (claims c))
          (signature_of c key) (encode_part-HasNoDot capability_header)
          (encode_part-HasNoDot (claims c))
          (laws.b64encode-HasNoDot (codec.sign key (signing_input c))))
        (verify_parts-issued c key now skew valid alive in_time))

-- What a token that verified must be: three parts whose header is the fixed one, whose payload
-- decodes to the claims, and whose signature the key accepts for the first two parts.
pub record IsGenuine {PrivateKey PublicKey : Type 0} (codec : Codec PrivateKey PublicKey)
    (public_key : PublicKey) (token : Text) (c : CapabilityClaims) : Type 0 where
  pub encoded_header : Text
  pub encoded_payload : Text
  pub encoded_signature : Text
  pub signature : Text
  pub is_token : token ≡ encoded_header ++ (dot ∷ (encoded_payload ++ (dot ∷ encoded_signature)))
  pub decodes_header : decode_part codec encoded_header ≡ ok capability_header
  pub decodes_payload : decode_part codec encoded_payload ≡ ok (claims c)
  pub decodes_signature : codec.b64decode encoded_signature ≡ some signature
  pub is_signed :
      codec.verify public_key signature (encoded_header ++ (dot ∷ encoded_payload)) ≡ true

module _ {PrivateKey PublicKey : Type 0} (codec : Codec PrivateKey PublicKey) where
  is_header-eq : (p : Part) → is_header p ≡ true → p ≡ capability_header
  is_header-eq (header alg typ v) h =
      ground (arith, eq_iff alg "EdDSA", eq_iff typ "capability+jwt")
  is_header-eq (claims c) h = absurd (ground arith)
  is_header-eq (other_object t) h = absurd (ground arith)
  is_header-eq (not_object t) h = absurd (ground arith)

  as_claims-eq :
      (p : Part) {c : CapabilityClaims}
      → as_claims p ≡ ok c
      → (p ≡ claims c) × (are_valid_claims c ≡ true)
  as_claims-eq (claims d) h = ground arith
  as_claims-eq (header a t v) h = absurd (ground arith)
  as_claims-eq (other_object t) h = absurd (ground arith)
  as_claims-eq (not_object t) h = absurd (ground arith)

  in_time :
      (c d : CapabilityClaims) (now skew : ℕ)
      → (guard (ltb now d.expires_at) expired
          >> (guard (leb d.issued_at (now + skew)) issued_in_future >> ok d))
        ≡ ok c
      → (d ≡ c) × (now < c.expires_at) × (c.issued_at ≤ now + skew)
  in_time c d now skew h = ground arith

  parts_sound :
      (h p s : Text) (public_key : PublicKey) (now skew : ℕ) {c : CapabilityClaims}
      → verify_parts codec h p s public_key now skew ≡ ok c
      → IsGenuine codec public_key (h ++ (dot ∷ (p ++ (dot ∷ s)))) c
        × (are_valid_claims c ≡ true)
        × (now < c.expires_at)
        × (c.issued_at ≤ now + skew)
  unfolding verify_parts
  parts_sound h p s public_key now skew {c} e =
      let (d, decoded, e1) = >>=-eq-ok (decode_part codec h) _ e in
      let (u, fixed, e2) = >>=-eq-ok (guard (is_header d) bad_header) _ e1 in
      let (sig, raw, e3) = >>=-eq-ok (require (codec.b64decode s) bad_signature) _ e2 in
      let (v, signed, e4) =
        >>=-eq-ok (guard (codec.verify public_key sig (h ++ (dot ∷ p))) bad_signature) _ e3 in
      let (q, payload, e5) = >>=-eq-ok (decode_part codec p) _ e4 in
      let (k, held, e6) = >>=-eq-ok (as_claims q) _ e5 in
      let (same, alive, early) = in_time c k now skew e6 in
      let (is_k, good) = as_claims-eq q held in
      (
        record {
          encoded_header = h;
          encoded_payload = p;
          encoded_signature = s;
          signature = sig;
          is_token = refl;
          decodes_header = cc (decoded, is_header-eq d (guard-eq-ok _ _ fixed));
          decodes_payload = cc (payload, is_k, same);
          decodes_signature = require-eq-ok _ _ raw;
          is_signed = guard-eq-ok _ _ signed;
        },
        cc (good, ap are_valid_claims same),
        alive,
        early,
      )

  parts_sound_pair :
      (h p s : Text) (public_key : PublicKey) (now skew : ℕ) {c : CapabilityClaims}
      → verify_parts codec h p s public_key now skew ≡ ok c
      → IsGenuine codec public_key (h ++ (dot ∷ (p ++ (dot ∷ s)))) c
        × ((are_valid_claims c ≡ true) × (now < c.expires_at) × (c.issued_at ≤ now + skew))
  parts_sound_pair h p s public_key now skew e =
      let r = parts_sound h p s public_key now skew e in (r.0, (r.1, r.2, r.3))

  three_parts :
      (parts : List Text) (public_key : PublicKey) (now skew : ℕ) {c : CapabilityClaims}
      → verify_split codec parts public_key now skew ≡ ok c
      → (h p s : Text) × (parts ≡ h ∷ p ∷ s ∷ [])
        × (verify_parts codec h p s public_key now skew ≡ ok c)
  three_parts [] public_key now skew e = absurd (ground arith)
  three_parts (h ∷ []) public_key now skew e = absurd (ground arith)
  three_parts (h ∷ p ∷ []) public_key now skew e = absurd (ground arith)
  three_parts (h ∷ p ∷ s ∷ []) public_key now skew e = (h, p, s, refl, e)
  three_parts (h ∷ p ∷ s ∷ x ∷ r) public_key now skew e = absurd (ground arith)

  -- A verified capability is genuine, its claims are well formed, it has not expired, and it was
  -- not issued further ahead of the clock than the allowed skew.
  pub verify_capability_sound :
      (token : Text) (public_key : PublicKey) (now skew : ℕ) {c : CapabilityClaims}
      → verify_capability codec token public_key now skew ≡ ok c
      → IsGenuine codec public_key token c
        × (are_valid_claims c ≡ true)
        × (now < c.expires_at)
        × (c.issued_at ≤ now + skew)
  unfolding verify_capability join_dot
  verify_capability_sound token public_key now skew {c} e =
      let (h, p, s, parts, verified) = three_parts (split_dot token) public_key now skew e in
      let whole : h ++ (dot ∷ (p ++ (dot ∷ s))) ≡ token =
        sym (ap join_dot parts) ∙ join-split token in
      let (genuine, rest) = parts_sound_pair h p s public_key now skew verified in
      (subst (λ t. IsGenuine codec public_key t c) whole genuine, rest.0, rest.1, rest.2)

  -- The token of an execution action is issued only for valid claims, which live at least a minute
  -- and at most an hour, and bind the tool, the preparation and the artifact digest.
  pub action_capability_lifetime :
      (key : PrivateKey) (subject : ℕ) (tool : String) (environment : Text) (preparation_id : ℕ)
      (artifact_digest : String) (ttl jti issued_at : ℕ) {token : Text}
      → issue_execution_action_capability codec key subject tool environment preparation_id
          artifact_digest ttl jti issued_at
        ≡ ok token
      → let c =
          action_claims subject tool environment preparation_id artifact_digest ttl jti issued_at in
        (issue_capability codec c key ≡ ok token)
        × (are_valid_claims c ≡ true)
        × (c.issued_at + 60 ≤ c.expires_at)
        × (c.expires_at ≤ c.issued_at + 3600)
        × (c.tool ≡ tool)
        × (c.preparation_id ≡ preparation_id)
        × (c.artifact_digest ≡ artifact_digest)
  unfolding issue_execution_action_capability action_claims
  action_capability_lifetime key subject tool env prep digest ttl jti issued_at h = ground arith
