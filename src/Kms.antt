-- ===== src/Kms.antt =====
-- internal/enclave/provider/awskms: the KMS client of the enclave. `Errors` is kmserror.go, `Regions`
-- the validation of key ARNs and regions, `Client` the failover between the keys of the regions.
pub mod Errors
pub mod Regions
pub mod Config
pub mod Client
pub mod Failover
