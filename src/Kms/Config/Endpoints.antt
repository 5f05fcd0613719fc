-- ===== src/Kms/Config/Endpoints.antt =====
-- About `initClients` of internal/enclave/provider/awskms/awskms.go: how each client reaches KMS.
use arc_remote_signer.Common.{
  ap₂, Bool, true, false, not, ◌||◌, List, [], ◌∷◌, ◌++◌, none, some, ◌≡◌, refl, sym, ap, subst,
  ◌∙◌, length, arith, All, Bytes, is_empty, codes, bytes_eq, bytes_eq_iff, Bool-cases, inl, inr,
}
use arc_remote_signer.GoError.{new, ◌>>◌, fail_if, Result, ok, Result-cases, bind_ok, map_err_ok}
use arc_remote_signer.Kms.Regions.{
  validate_kms_region, Arn, validate_kms_key_arns, extract_regions, extract_region_from_kms_key_arn,
}
use arc_remote_signer.Kms.Config.{
  Outside, AwsConfig, ClientConfig, kms_hostname, canonical_kms_endpoint, awsproxy_address,
  amazon_root_cas_for_server, new_awsproxy_http_client, endpoint_of, client_http, init_client,
  init_each, init_clients,
}

-- A client whose header names its region, and whose endpoint and TLS server name are the KMS host
-- of that region.
pub record IsRouted (c : ClientConfig) : Type 0 where
  pub route : c.http_client.route ≡ some (record { service = codes "kms"; region = c.region })
  pub tls : c.http_client.tls_server_name ≡ kms_hostname c.region
  pub base : c.base_endpoint ≡ codes "https://" ++ kms_hostname c.region

unfoldable pub regions_of : List ClientConfig → List Bytes
regions_of [] = []
regions_of (c ∷ cs) = c.region ∷ regions_of cs

unfoldable pub arns_of : List ClientConfig → List Bytes
arns_of [] = []
arns_of (c ∷ cs) = c.arn ∷ arns_of cs

module _ (o : Outside) (cfg : AwsConfig) (awsproxy_endpoint : Bytes) where
  canonical-Is :
      (region base name : Bytes)
      → canonical_kms_endpoint o region ≡ ok (base, name)
      → (base ≡ codes "https://" ++ kms_hostname region) × (name ≡ kms_hostname region)
  unfolding canonical_kms_endpoint
  canonical-Is region base name h = bind_ok (validate_kms_region region) _ h λ _ _ h₁.
      map_err_ok _ (o.url_parse (codes "https://" ++ kms_hostname region)) _ h₁ λ url p h₂.
        let (same_base, same_name, plain) = guarded _ _ _ h₂ in
        let found =
          matched (not (bytes_eq url.scheme (codes "https"))) url.has_user
            (not (is_empty url.fragment)) (bytes_eq url.hostname (kms_hostname region)) plain in
        (same_base, same_name ∙ (bytes_eq_iff url.hostname (kms_hostname region)).0 found)
    where
      guarded :
          (test : Bool) (text host : Bytes)
          → ◌>>◌ {B = Bytes × Bytes}
              (fail_if test (new "canonical KMS endpoint has invalid URL components"))
              (ok (text, host))
            ≡ ok (base, name)
          → (base ≡ text) × (name ≡ host) × (test ≡ false)
      guarded test text host e = ground arith

      matched : (a b c d : Bool) → (a || b || c || not d) ≡ false → d ≡ true
      matched a b c d e = ground arith

  init_client-IsRouted :
      (arn region : Bytes) (c : ClientConfig)
      → cfg.base_endpoint ≡ none
      → is_empty awsproxy_endpoint ≡ false
      → init_client o cfg awsproxy_endpoint arn region ≡ ok c
      → (c.arn ≡ arn) × (c.region ≡ region) × IsRouted c
  unfolding init_client endpoint_of client_http new_awsproxy_http_client
  init_client-IsRouted arn region c direct proxied h =
      elim (Result-cases (canonical_kms_endpoint o region)) [
        | inr (e, p) ↦ absurd (ground arith)
        | inl ((base, name), p) ↦
            let (same_base, same_name) = canonical-Is region base name p in
            elim (Result-cases (awsproxy_address o awsproxy_endpoint)) [
              | inr (e, q) ↦ absurd (ground arith)
              | inl (address, q) ↦ elim (Result-cases (amazon_root_cas_for_server o name)) [
                | inr (e, r) ↦ absurd (ground arith)
                | inl (_, r) ↦
                    let shape : made base name address ≡ c = ground arith in
                    (
                      ap (λ (x : ClientConfig). x.arn) (sym shape),
                      ap (λ (x : ClientConfig). x.region) (sym shape),
                      subst IsRouted shape
                          (record { route = refl; tls = same_name; base = same_base }),
                    )
              ]
            ]
      ]
    where
      made : Bytes → Bytes → Bytes → ClientConfig
      made base name address = record {
        arn = arn;
        region = region;
        base_endpoint = base;
        http_client = record {
          proxy_address = address;
          route = some (record { service = codes "kms"; region = region });
          tls_server_name = name;
        };
      }

  init_each-IsRouted :
      (arns regions : List Bytes) (cs : List ClientConfig)
      → cfg.base_endpoint ≡ none
      → is_empty awsproxy_endpoint ≡ false
      → length arns ≡ length regions
      → init_each o cfg awsproxy_endpoint arns regions ≡ ok cs
      → (arns_of cs ≡ arns) × (regions_of cs ≡ regions) × All IsRouted cs
  unfolding init_each arns_of regions_of
  init_each-IsRouted [] [] cs direct proxied same h =
      subst (λ (l : List ClientConfig). (arns_of l ≡ []) × (regions_of l ≡ []) × All IsRouted l)
        (let e : [] ≡ cs = ground arith in e) (refl, refl, tt)
  init_each-IsRouted [] (region ∷ regions) cs direct proxied same h = absurd (omega arith)
  init_each-IsRouted (arn ∷ arns) [] cs direct proxied same h = absurd (omega arith)
  init_each-IsRouted (arn ∷ arns) (region ∷ regions) cs direct proxied same h =
      bind_ok (init_client o cfg awsproxy_endpoint arn region) _ h λ c p h₁.
        bind_ok (init_each o cfg awsproxy_endpoint arns regions) _ h₁ λ rest q h₂.
          let (a, r, routed) = init_client-IsRouted arn region c direct proxied p in
          let (named, rs, all) =
            init_each-IsRouted arns regions rest direct proxied (omega arith) q in
          subst
            (λ (l : List ClientConfig).
              (arns_of l ≡ arn ∷ arns) × (regions_of l ≡ region ∷ regions) × All IsRouted l)
            (let e : c ∷ rest ≡ cs = ground arith in e)
            (ap₂ ◌∷◌ a named, ap₂ ◌∷◌ r rs, (routed, all))

extract_regions-length :
    (parse : Bytes → Result Arn) (arns regions : List Bytes)
    → extract_regions parse arns ≡ ok regions
    → length arns ≡ length regions
unfolding extract_regions
extract_regions-length parse [] regions h = ground arith
extract_regions-length parse (arn ∷ arns) regions h =
    elim (Result-cases (extract_region_from_kms_key_arn parse arn)) [
      | inr (e, p) ↦ absurd (ground arith)
      | inl (region, p) ↦ elim (Result-cases (extract_regions parse arns)) [
        | inr (e, q) ↦ absurd (ground arith)
        | inl (rest, q) ↦
            let same = extract_regions-length parse arns rest q in
            let e : region ∷ rest ≡ regions = ground arith in omega (arith, ap length e)
      ]
    ]

-- The clients of `initClients` on AWS's own endpoints over a proxy: one for each ARN in their
-- order, with the region that the validation found in it, each routed to KMS in that region.
pub init_clients-IsRouted :
    (o : Outside) (cfg : AwsConfig) (awsproxy_endpoint : Bytes) (arns : List Bytes)
    (cs : List ClientConfig)
    → cfg.base_endpoint ≡ none
    → is_empty awsproxy_endpoint ≡ false
    → init_clients o cfg arns awsproxy_endpoint ≡ ok cs
    → (extract_regions o.arn_parse arns ≡ ok (regions_of cs))
      × (arns_of cs ≡ arns)
      × All IsRouted cs
unfolding init_clients validate_kms_key_arns
init_clients-IsRouted o cfg awsproxy_endpoint arns cs direct proxied h =
    elim (Bool-cases (is_empty arns)) [
      | inl e ↦ absurd (ground arith)
      | inr e ↦ elim (Result-cases (extract_regions o.arn_parse arns)) [
        | inr (x, p) ↦ absurd (ground arith)
        | inl (regions, p) ↦
            let (named, rs, all) =
              init_each-IsRouted o cfg awsproxy_endpoint arns regions cs direct proxied
                (extract_regions-length o.arn_parse arns regions p) (ground arith) in
            (p ∙ ap ok (sym rs), named, all)
      ]
    ]
