-- ===== src/Lib.antt =====
-- Verification library of agents-secure-binding: the verifier's acceptance rules.
--
-- A verifier accepts an Agent only if a verified grant, a holder-of-key statement, the accepted
-- TLS session, replay state and local policy describe one interaction. The modules:
--
-- - Common: shared names, Boolean tests, lists over the native numbers, results.
-- - GoString: Go strings as lists of bytes, with UTF-8 decoding, `strings.TrimSpace` and the
--   other standard functions that the program calls. GoTime: `time.Time` as nanoseconds since the
--   zero time, which is 0.
-- - IdentityPolicy (pkg/atls/identitypolicy). Errors, Checks, Values, Sets and Policy model
--   policy.go: each Go function has a definition of the same name in snake case, a loop with its
--   body as functions of their own, and `hasExpected` beside `errs` as the record Outcome. A nil
--   error is `none`. Replay models replay_cache.go and setnx_replay_cache.go, a call giving the
--   new state beside the error; SessionBinding models session_binding.go over the interface
--   ReplayCache.
-- - Agtp (pkg/agtp). GatewayRoute, with the records of RouteTypes, models gatewayroute/route.go,
--   which marks its replay keys in a cache of the interface ReplayCache. Diversion models
--   diversionpolicy/policy.go, an error being the list of the sentinels that it wraps.
-- - Agent (agent). StateMachine models statemachine/state.go, with the two locked parts of
--   `handleEvent` as `look_up` and `commit`, and `Start` as steps among the other operations in
--   StateMachine.Loop; States has the transitions of service.go, and
--   Results its operation `Result`.
-- - Atls (pkg/atls). Tls has what is read of a TLS connection, and the hashes. Attestation models
--   eaattestation (types.go, binding.go, verify.go). Ea models ea: Wire handshake.go, Extensions
--   extensions.go and cmw_attestation.go, Request request.go, Messages certificate.go, finished.go
--   and the message of certverify.go, Policy policy.go, Session session.go, Signatures
--   sigscheme.go and the signatures of certverify.go, Transcript exporters.go and util.go, and
--   Create, Flight and Validate authenticator.go. A call that may change the session or the
--   caller's certificate pool gives them back beside its result. The TLS exporter, hashes,
--   signatures, X.509 certificates, ASN.1, JSON and the random source are parameters.
--   Transport models internal_transport (Frame protocol.go; Client and Server conn.go, whose
--   handlers take the peer's bytes and the clock reading as arguments) and, in Identity,
--   identity_binding.go: a client checks the peer's authenticator by Ea and then the identity
--   policy by IdentityPolicy. Provider models provider.go, and Evidence
--   evidence_verifier.go over the decoders and verifiers of the platforms.
--
-- The loops that read bytes run on fuel, the number of bytes that are left, which is enough since
-- every round takes one at least; all others run over lists. A Go map with string keys is a
-- function, or a list of its keys where its size is read. Lengths and counts are compared with
-- constants far below 2 ^ 63 and are not wrapped, numbers of several bytes are taken apart
-- modulo 256; `Sub` of two times saturates as in Go. A nil slice is the empty list.
--
-- Not modelled: the texts of error messages but those of Evidence, JSON and YAML decoding, the
-- checks of the signatures of grants and statements,
-- which the callers make before they build a grant or a statement, the goroutines and
-- sockets around TLS connections, and the packages for platform evidence, managers and command
-- lines.
pub mod Common
pub mod GoString
pub mod GoTime
pub mod IdentityPolicy
pub mod Agtp
pub mod Agent
pub mod Atls
