-- ===== src/Gateway/S3/Sign.antt =====
-- The signature that gateway/aperture_s3.go puts on a request.
use remote_juggler.Prelude.{ℕ, [], ◌∷◌, ◌++◌, ◌||◌, if◌then◌else◌}
use remote_juggler.Text.{Text, lit, is_empty, join}
use remote_juggler.Http.{HttpRequest}

pub record S3Config : Type 0 where
  pub bucket : Text
  pub region : Text
  pub prefix : Text
  pub endpoint : Text
  pub access_key : Text
  pub secret_key : Text

-- The uses of crypto/hmac, crypto/sha256, encoding/hex and net/url (the host, the path and the encoded
-- query of a URL), the clock and its two formats.
pub record Signing (W : Type 0) : Type 0 where
  pub clock : W → ℕ
  -- `hmacSHA256` of a key and data, and `sha256Hex`
  pub hmac_sha256 : Text → Text → Text
  pub sha256_hex : Text → Text
  pub hex : Text → Text
  pub datestamp : ℕ → Text
  pub amz_date : ℕ → Text
  pub url_host : Text → Text
  pub url_path : Text → Text
  pub encoded_query : Text → Text

module _ {W : Type 0} (sg : Signing W) where
  abbrev or_default : Text → Text → Text
  or_default d s = if is_empty s then d else s

  abbrev line : Text → Text → Text
  line s rest = s ++ (10 ∷ rest)

  abbrev canonical_headers : Text → Text → Text → Text
  canonical_headers host payload_hash date =
      line (lit "host:" ++ host)
        (line (lit "x-amz-content-sha256:" ++ payload_hash) (line (lit "x-amz-date:" ++ date) []))

  abbrev signed_headers : Text
  signed_headers = lit "host;x-amz-content-sha256;x-amz-date"

  abbrev canonical_request : HttpRequest → Text → Text → Text
  canonical_request q payload_hash date = join 10 (
      q.method
      ∷ or_default (lit "/") (sg.url_path q.url)
      ∷ sg.encoded_query q.url
      ∷ canonical_headers (sg.url_host q.url) payload_hash date
      ∷ signed_headers
      ∷ payload_hash
      ∷ [])

  abbrev credential_scope : Text → Text → Text
  credential_scope date region = date ++ (lit "/" ++ (region ++ lit "/s3/aws4_request"))

  abbrev signing_key : Text → Text → Text → Text
  signing_key secret date region =
      sg.hmac_sha256
        (sg.hmac_sha256 (sg.hmac_sha256 (sg.hmac_sha256 (lit "AWS4" ++ secret) date) region)
          (lit "s3"))
        (lit "aws4_request")

  -- `signS3Request` at a time: without both keys a request is not signed.
  unfoldable pub sign_s3_request : S3Config → ℕ → HttpRequest → Text → HttpRequest
  unfolding lit join
  sign_s3_request s now q payload_hash =
      let date = sg.amz_date now in
      let scope = credential_scope (sg.datestamp now) (or_default (lit "us-east-1") s.region) in
      let to_sign = join 10 (
        lit "AWS4-HMAC-SHA256"
        ∷ date
        ∷ scope
        ∷ sg.sha256_hex (canonical_request q payload_hash date)
        ∷ []) in
      let signature = sg.hex (
        sg.hmac_sha256
          (signing_key s.secret_key (sg.datestamp now) (or_default (lit "us-east-1") s.region))
          to_sign) in
      if is_empty s.access_key || is_empty s.secret_key then q else record q {
        headers =
            q.headers
            ++ ((lit "x-amz-date", date)
                ∷ (lit "x-amz-content-sha256", payload_hash)
                ∷ (
                  lit "Authorization",
                  lit "AWS4-HMAC-SHA256 Credential="
                      ++ (s.access_key
                          ++ (lit "/"
                              ++ (scope
                                  ++ (lit ", SignedHeaders="
                                      ++ (signed_headers ++ (lit ", Signature=" ++ signature)))))),
                )
                ∷ []);
      }
