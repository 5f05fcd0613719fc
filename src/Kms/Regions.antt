-- ===== src/Kms/Regions.antt =====
-- internal/enclave/provider/awskms/awskms.go and awsconfig.go: the validation of key ARNs and of the
-- region of the credentials. `arn.Parse` of the AWS SDK is a parameter.
use arc_remote_signer.Common.{
  Bool, false, not, ◌||◌, List, [], ◌∷◌, Bytes, is_empty, codes, bytes_eq, if◌then◌else◌,
}
use arc_remote_signer.GoError.{
  new, wrap, wrap_two, sentinel, invalid_arn, invalid_region, Result, ok, err, ◌>>=◌, ◌>>◌, fail_if,
  map_err,
}

pub record Arn : Type 0 where
  pub partition : Bytes
  pub service : Bytes
  pub region : Bytes

abbrev pub kms_regions : List Bytes
kms_regions =
    codes "af-south-1"
    ∷ codes "ap-east-1"
    ∷ codes "ap-east-2"
    ∷ codes "ap-northeast-1"
    ∷ codes "ap-northeast-2"
    ∷ codes "ap-northeast-3"
    ∷ codes "ap-south-1"
    ∷ codes "ap-south-2"
    ∷ codes "ap-southeast-1"
    ∷ codes "ap-southeast-2"
    ∷ codes "ap-southeast-3"
    ∷ codes "ap-southeast-4"
    ∷ codes "ap-southeast-5"
    ∷ codes "ap-southeast-6"
    ∷ codes "ap-southeast-7"
    ∷ codes "ca-central-1"
    ∷ codes "ca-west-1"
    ∷ codes "eu-central-1"
    ∷ codes "eu-central-2"
    ∷ codes "eu-north-1"
    ∷ codes "eu-south-1"
    ∷ codes "eu-south-2"
    ∷ codes "eu-west-1"
    ∷ codes "eu-west-2"
    ∷ codes "eu-west-3"
    ∷ codes "il-central-1"
    ∷ codes "me-central-1"
    ∷ codes "me-south-1"
    ∷ codes "mx-central-1"
    ∷ codes "sa-east-1"
    ∷ codes "us-east-1"
    ∷ codes "us-east-2"
    ∷ codes "us-west-1"
    ∷ codes "us-west-2"
    ∷ []

unfoldable pub contains : List Bytes → Bytes → Bool
contains [] x = false
contains (y ∷ ys) x = bytes_eq x y || contains ys x

unfoldable pub is_kms_region : Bytes → Bool
unfolding contains
is_kms_region = contains kms_regions

unfoldable pub validate_kms_region : Bytes → Result (Unit {0})
validate_kms_region region =
    if is_kms_region region then ok tt else err (new "KMS region is not supported")

unfoldable pub validate_credentials_region : Bytes → Result (Unit {0})
unfolding validate_kms_region
validate_credentials_region region =
    map_err (wrap_two "" (sentinel invalid_region))
      (map_err (wrap "credentials region: ") (validate_kms_region region))

module _ (arn_parse : Bytes → Result Arn) where
  unfoldable pub extract_region_from_kms_key_arn : Bytes → Result Bytes
  unfolding validate_kms_region
  extract_region_from_kms_key_arn text = do
    arn ← arn_parse text
    fail_if (not (bytes_eq arn.partition (codes "aws"))) (new "ARN partition is not supported")
    fail_if (not (bytes_eq arn.service (codes "kms"))) (new "ARN service is not KMS")
    fail_if (is_empty arn.region) (new "KMS ARN has no region")
    validate_kms_region arn.region
    ok arn.region

  -- The loop over the ARNs.
  unfoldable pub extract_regions : List Bytes → Result (List Bytes)
  unfolding extract_region_from_kms_key_arn
  extract_regions [] = ok []
  extract_regions (text ∷ texts) = do
    region ←
        map_err (wrap_two "invalid arn: " (sentinel invalid_arn))
          (extract_region_from_kms_key_arn text)
    regions ← extract_regions texts
    ok (region ∷ regions)

  unfoldable pub validate_kms_key_arns : List Bytes → Result (List Bytes)
  unfolding extract_regions
  validate_kms_key_arns arns = do
    fail_if (is_empty arns) (new "there is no arn")
    extract_regions arns

  unfoldable pub validate_regions : Bytes → List Bytes → Result (Unit {0})
  unfolding validate_credentials_region validate_kms_key_arns
  validate_regions credentials_region arns = do
    validate_credentials_region credentials_region
    _ ← validate_kms_key_arns arns
    ok tt
