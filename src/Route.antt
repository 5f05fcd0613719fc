-- ===== src/Route.antt =====
-- internal/common/byteproxy/awsroute.go: the routing header in front of a proxied connection.
-- A reader is the bytes that its peer sends before the end of the stream, and a writer is the
-- function that answers `Write` with a count and an error.
pub mod Codec
use arc_remote_signer.Common.{
  ℕ, ◌+◌, ◌%◌, Bool, not, ◌||◌, List, [], ◌∷◌, ◌++◌, Option, none, some, ltb, ◌==◌, if◌then◌else◌,
  Bytes, length, take, drop, get_or, is_empty, codes, bytes_eq,
}
use arc_remote_signer.GoError.{
  Err, new, wrap, sentinel, short_write, Result, ok, err, ◌>>=◌, ◌>>◌, fail_if, map_err,
}

pub record AwsRoute : Type 0 where
  pub service : Bytes
  pub region : Bytes

abbrev pub aws_route_magic : Bytes
aws_route_magic = codes "ARSP"

abbrev pub aws_route_version : ℕ
aws_route_version = 1

abbrev pub aws_route_prefix : ℕ
aws_route_prefix = 7

abbrev pub bad_length : Bytes → Bool
bad_length text = is_empty text || ltb 255 (length text)

-- The bytes that `WriteAWSRoute` appends.
unfoldable pub aws_route_header : AwsRoute → Bytes
aws_route_header route =
    ((aws_route_magic
        ++ aws_route_version ∷ (length route.service % 256) ∷ (length route.region % 256) ∷ [])
      ++ route.service)
    ++ route.region

unfoldable pub check_write : Bytes → ℕ × Option Err → Result (Unit {0})
check_write header (n, some e) = err (wrap "byteproxy: write AWS route: " e)
check_write header (n, none) =
    fail_if (not (n == length header)) (wrap "byteproxy: write AWS route: " (sentinel short_write))

unfoldable pub write_aws_route : (Bytes → ℕ × Option Err) → AwsRoute → Result (Unit {0})
unfolding check_write
write_aws_route write route = do
  fail_if (bad_length route.service) (new "byteproxy: AWS route service must contain 1-255 bytes")
  fail_if (bad_length route.region) (new "byteproxy: AWS route region must contain 1-255 bytes")
  check_write (aws_route_header route) (write (aws_route_header route))

-- `io.ReadFull` into a buffer of n bytes: the bytes, and what the stream still holds.
unfoldable pub read_full : ℕ → Bytes → Result (Bytes × Bytes)
read_full n stream =
    if ltb (length stream) n then err (new "unexpected EOF") else ok (take n stream, drop n stream)

-- The route, and what the stream holds behind the header.
unfoldable pub read_aws_route : Bytes → Result (AwsRoute × Bytes)
unfolding read_full
read_aws_route stream = do
  (prefix, behind) ←
      map_err (wrap "byteproxy: read AWS route prefix: ") (read_full aws_route_prefix stream)
  fail_if (not (bytes_eq (take (length aws_route_magic) prefix) aws_route_magic))
      (new "byteproxy: invalid magic in AWS route header")
  fail_if (not (get_or prefix (length aws_route_magic) 0 == aws_route_version))
      (new "byteproxy: unsupported AWS route version")
  let service_len = get_or prefix (length aws_route_magic + 1) 0
  let region_len = get_or prefix (length aws_route_magic + 2) 0
  fail_if (service_len == 0 || region_len == 0)
      (new "byteproxy: AWS route service and region must be non-empty")
  (payload, rest) ←
      map_err (wrap "byteproxy: read AWS route payload: ")
        (read_full (service_len + region_len) behind)
  ok (record { service = take service_len payload; region = drop service_len payload }, rest)
