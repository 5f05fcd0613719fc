-- ===== src/Route/Codec.antt =====
-- About `WriteAWSRoute` and `ReadAWSRoute` of internal/common/byteproxy/awsroute.go.
use arc_remote_signer.Common.{
  ℕ, ◌+◌, ◌%◌, ◌≤◌, ◌<◌, false, [], ◌∷◌, ◌++◌, Option, none, some, Bytes, length, take, drop,
  IsBytes, ◌≡◌, refl, ap, sym, subst, ◌∙◌, arith, length-append, take-append, drop-append,
  append_assoc, take-append-drop, length-take, length-drop, ◌↔◌,
}
use arc_remote_signer.GoError.{Err, ok}
use arc_remote_signer.Route.{
  AwsRoute, aws_route_header, read_full, read_aws_route, write_aws_route, aws_route_magic,
  aws_route_version, bad_length, check_write,
}

-- Both texts have from 1 to 255 bytes.
pub record IsSendable (route : AwsRoute) : Type 0 where
  pub service_low : 1 ≤ length route.service
  pub service_high : length route.service ≤ 255
  pub region_low : 1 ≤ length route.region
  pub region_high : length route.region ≤ 255

read_full-append :
    (xs rest : Bytes) (n : ℕ) → length xs ≡ n → read_full n (xs ++ rest) ≡ ok (xs, rest)
unfolding read_full
read_full-append xs rest n h =
    ground (arith, length-append xs rest, take-append xs rest n h, drop-append xs rest n h)

-- The header as the reader meets it.
framed : ℕ → ℕ → Bytes → Bytes
framed m n behind = aws_route_magic ++ aws_route_version ∷ m ∷ n ∷ behind

aws_route_header-framed :
    (route : AwsRoute) (rest : Bytes)
    → IsSendable route
    → aws_route_header route ++ rest
      ≡ framed
          (length route.service)
          (length route.region)
          ((route.service ++ route.region) ++ rest)
unfolding aws_route_header framed
aws_route_header-framed route rest h =
    let e : length route.service % 256 ≡ length route.service = omega arith in
    let f : length route.region % 256 ≡ length route.region = omega arith in
    simp (append_assoc, e, f)

read_aws_route-framed :
    (m n : ℕ) (service region rest : Bytes)
    → length service ≡ m
    → length region ≡ n
    → 1 ≤ m
    → 1 ≤ n
    → read_aws_route (framed m n ((service ++ region) ++ rest))
      ≡ ok (record { service = service; region = region }, rest)
unfolding read_aws_route framed
read_aws_route-framed m n service region rest e f p q = ground (
  arith,
  read_full-append (service ++ region) rest (m + n) (omega (arith, length-append service region)),
  take-append service region m e,
  drop-append service region m e,
)

-- Whatever follows the header of a sendable route, the reader returns the route and stops behind
-- the header.
pub read_aws_route-aws_route_header :
    (route : AwsRoute) (rest : Bytes)
    → IsSendable route
    → read_aws_route (aws_route_header route ++ rest) ≡ ok (route, rest)
read_aws_route-aws_route_header route rest h = rw (aws_route_header-framed route rest h) (
    read_aws_route-framed (length route.service) (length route.region) route.service route.region
      rest refl refl h.service_low h.region_low)

-- What the reader accepts, by parts.
record Accepts (stream : Bytes) (route : AwsRoute) (rest : Bytes) : Type 0 where
  m : ℕ
  n : ℕ
  behind : Bytes
  frame : stream ≡ framed m n behind
  service_low : 1 ≤ m
  region_low : 1 ≤ n
  long : m + n ≤ length behind
  service_is : route.service ≡ take m (take (m + n) behind)
  region_is : route.region ≡ drop m (take (m + n) behind)
  rest_is : rest ≡ drop (m + n) behind

read_aws_route-Accepts :
    (stream : Bytes) (route : AwsRoute) (rest : Bytes)
    → read_aws_route stream ≡ ok (route, rest)
    → Accepts stream route rest
unfolding read_aws_route framed
read_aws_route-Accepts (a ∷ b ∷ c ∷ d ∷ v ∷ m ∷ n ∷ behind) route rest h = record {
  m = m;
  n = n;
  behind = behind;
  frame = ground arith;
  service_low = ground arith;
  region_low = ground arith;
  long = ground arith;
  service_is = ground arith;
  region_is = ground arith;
  rest_is = ground arith;
}
read_aws_route-Accepts _ route rest h = absurd (ground arith)

abbrev Small : ℕ → ℕ → Type 0
Small m n = (m < 256) × (n < 256)

framed-IsBytes :
    (stream : Bytes) (m n : ℕ) (behind : Bytes)
    → stream ≡ framed m n behind
    → IsBytes stream
    → Small m n
unfolding framed
framed-IsBytes stream m n behind e h = let k = subst IsBytes e h in (k.1.1.1.1.1.0, k.1.1.1.1.1.1.0)

payload :
    (m n : ℕ) (behind : Bytes)
    → take m (take (m + n) behind) ++ drop m (take (m + n) behind) ++ drop (m + n) behind ≡ behind
payload m n behind = rw (take-append-drop m (take (m + n) behind)) (take-append-drop (m + n) behind)

Accepts-header :
    (stream : Bytes) (route : AwsRoute) (rest : Bytes)
    → IsBytes stream
    → Accepts stream route rest
    → IsSendable route × (stream ≡ aws_route_header route ++ rest)
Accepts-header stream route rest bytes a =
    let small = framed-IsBytes stream a.m a.n a.behind a.frame bytes in
    let all = take (a.m + a.n) a.behind in
    let s : length route.service ≡ a.m = omega (
      arith,
      ap length a.service_is,
      length-take a.m all,
      length-take (a.m + a.n) a.behind,
      a.long,
    ) in
    let r : length route.region ≡ a.n = omega (
      arith,
      ap length a.region_is,
      length-drop a.m all,
      length-take (a.m + a.n) a.behind,
      a.long,
    ) in
    let sendable : IsSendable route = omega (arith, a.service_low, a.region_low) in
    (
      sendable,
      a.frame
          ∙ sym (
              aws_route_header-framed route rest sendable
              ∙ rw (s, r, a.service_is, a.region_is, a.rest_is)
                  (ap (framed a.m a.n) (payload a.m a.n a.behind))),
    )

-- On a stream of bytes the reader returns a route exactly when the stream begins with the header
-- that the writer sends for that route, and the route is sendable.
pub read_aws_route_iff :
    (stream : Bytes) (route : AwsRoute) (rest : Bytes)
    → IsBytes stream
    → (read_aws_route stream ≡ ok (route, rest))
      ↔ (IsSendable route × (stream ≡ aws_route_header route ++ rest))
read_aws_route_iff stream route rest bytes = (
  λ h. Accepts-header stream route rest bytes (read_aws_route-Accepts stream route rest h),
  λ (h, e). rw e (read_aws_route-aws_route_header route rest h),
)

bad_length_iff :
    (text : Bytes) → (bad_length text ≡ false) ↔ ((1 ≤ length text) × (length text ≤ 255))
bad_length_iff [] = (λ h. cc, λ h. absurd (omega arith))
bad_length_iff (b ∷ bs) = (λ h. ground arith, λ h. ground arith)

check_write_iff :
    (header : Bytes) (answer : ℕ × Option Err)
    → (check_write header answer ≡ ok tt) ↔ (answer ≡ (length header, none))
unfolding check_write
check_write_iff header (n, none) = (λ h. ground arith, λ h. ground arith)
check_write_iff header (n, some e) = (λ h. cc, λ h. cc)

-- `WriteAWSRoute` succeeds exactly when the route is sendable and the connection takes the whole
-- header of the route in one write, with no error.
pub write_aws_route_iff :
    (write : Bytes → ℕ × Option Err) (route : AwsRoute)
    → (write_aws_route write route ≡ ok tt) ↔ (
        IsSendable route
        × (write (aws_route_header route) ≡ (length (aws_route_header route), none)))
unfolding write_aws_route
write_aws_route_iff write route =
    let header = aws_route_header route in
    (
      λ h. ground (
        arith,
        bad_length_iff route.service,
        bad_length_iff route.region,
        check_write_iff header (write header),
      ),
      λ (s, e). ground (
        arith,
        bad_length_iff route.service,
        bad_length_iff route.region,
        check_write_iff header (write header),
      ),
    )
