-- ===== src/Lib.antt =====
-- A model of the remote signer: a host process that keeps no key, and an enclave that holds the
-- signing key and talks to AWS KMS through the host's proxy.
--
-- The parts and how they interact. On start the host reads its secret
-- (internal/app/service/signer/v1) and asks the enclave to initialize, with retries
-- (internal/app/enclaveinit.go). The enclave checks the request, takes a fingerprint of its key
-- source, and enters the initialization gate (internal/enclave/service/enclave), which runs the key
-- lifecycle once: a KMS data key, and a signing key sealed under it. Its KMS client
-- (internal/enclave/provider/awskms) tries one client per key ARN, each over the proxy, where a
-- header (internal/common/byteproxy/awsroute.go) names the service and the region that the host may
-- dial (internal/vsockproxy/routing.go). In Nitro mode KMS answers with a CMS message for a key
-- that the security module has attested (internal/enclave/provider/enclave), whose BER is turned
-- into DER before it is parsed and decrypted (internal/enclave/provider/enclave/kmsrecipient).
--
-- Which file models which part:
-- Common, GoError: shared helpers; Go errors as values, and results.
-- Ber: berToDER and all it calls, of kmsrecipient/ber.go.
-- Pkcs7: unpadPKCS7 of kmsrecipient/decrypt.go.
-- Cms: the rest of decrypt.go, from Decrypt to the RSA and AES calls.
-- Nitro: internal/enclave/provider/enclave/enclave.go, with its sessions as recorded calls.
-- Keys: the key types of internal/enclave/common/crypto and internal/common/crypto/aes, which fill
--   the interfaces of Envelope.
-- HostProxy: New of internal/vsockproxy/vsockproxy.go with its options, over Proxy and Resolver.
-- EnclaveProxy: New of internal/enclave/provider/awsproxy/awsproxy.go with its options, over Proxy.
-- VsockDial: vsockTransportDial and drainVsockDial of
--   internal/enclave/provider/awsproxy/transport_vsock.go, as a race of three goroutines.
-- Proxy: internal/common/byteproxy/byteproxy.go and awsproxy.go. A Proxy is the state, and an event
--   is what one goroutine does until another may run; Binding is New and NewAWSProxy, and Pipe the
--   two copies of a session, whose runs are part of the events. A connection may be closed several
--   times, and the closes are recorded.
-- Route: WriteAWSRoute and ReadAWSRoute.
-- Proto: the messages of proto/arc/enclave/v1/enclave.proto.
-- Fingerprint: fingerprintKeySource, hashKeySourceFields and toAlgorithm of envelope.go.
-- Kms: Errors is kmserror.go, Regions the validation of ARNs and regions, Client the provider and
--   its failover, Config awsconfig.go and initClients.
-- Gate: initgate.go. A Gate is the state, and the events arrive, join, begin_run, finish and cancel
--   are the parts of ensureInitialized between which other callers may run.
-- Envelope: the key lifecycle of envelope.go and toStatusError of enclave.go.
-- EnclaveService: the handlers of enclave.go, and runInit of initrunner.go; Concurrent puts them
--   behind the gate.
-- Resolver: routing.go and the endpoint templates of config.go.
-- Signer: signer.go and crypto.go of the host's service; Validity is attestation.go, and Refreshing
--   the goroutine that refreshes the attestation document.
-- EnclaveInit: enclaveinit.go.
-- Tests: concrete runs.
--
-- Bytes are natural numbers in lists, and what depends on their being below 256 says so. Lengths
-- and offsets of the BER reader are natural numbers; its nesting is bounded by fuel, one more than
-- maxBERDepth, and its loops by the length of the input, and running out of either is an error
-- value of its own, apart from Go's errors. Indexing and slicing out of range is such a value too.
-- Integers that wrap are written with their modulus. A time is its nanoseconds since Go's zero
-- time, and a duration a signed integer whose differences saturate and whose products wrap as Go's
-- do. The loop over the fragments of a CMS ciphertext has as much fuel as there are bytes, and each
-- round takes at least one.
--
-- Parameters: gRPC's status functions, SHA-256, the AES, RSA, BLS and Ed25519 libraries, random
-- numbers, KMS, the NSM device, the parsers of ARNs and URLs, ASN.1, CBOR, X.509, gob, the secret
-- store, and the connections. What a theorem relies on of them is a hypothesis of it.
--
-- Not modelled: the listen and dial functions of the transports but the enclave's vsock dial,
-- configuration, process lifecycle, logging, metrics and tracing, and generated code.
pub mod Common
pub mod GoError
pub mod Ber
pub mod Pkcs7
pub mod Route
pub mod Proto
pub mod Fingerprint
pub mod Kms
pub mod Gate
pub mod Envelope
pub mod EnclaveService
pub mod Resolver
pub mod Signer
pub mod EnclaveInit
pub mod Proxy
pub mod Cms
pub mod Keys
pub mod Nitro
pub mod VsockDial
pub mod HostProxy
pub mod EnclaveProxy
pub mod Tests
