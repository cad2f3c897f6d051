-- ===== src/Lib.antt =====
-- The Secrets Store CSI driver provider for Alibaba Cloud: the driver asks it over gRPC to mount secrets
-- into a pod, and it answers with the files and their versions.
--
-- A mount request (server/server.go) is read, a credential is found by a chain of authentication methods
-- (auth/auth.go), the objects of the request are read and validated (provider/secret_object.go, with ARNs by
-- utils/arn.go), each object gets a client (server/server.go, with endpoints checked by
-- server/endpoint_validation.go), and the secrets are fetched or read back (provider/secret_manager_provider.go,
-- provider/pull_limit.go) and taken apart by JMESPath (provider/secret_value.go). main.go starts the
-- servers and waits for a signal; every request goes through the interceptor of utils/grpc.go.
--
-- The files:
--   Prelude, Outcome, Exec: shared names, Go's strings, errors and panics as values, effects on a world
--   Settles: computations that do not panic, and fail only where failing is allowed; the children named
--     Needs say what that needs of everything outside, and Settled, Complete, Chained, Sound and Fetchable
--     carry it through the components
--   Arn: utils/arn.go, `ParseARN` and `string`
--   Regex, Endpoint: the patterns by derivatives, `validateKmsEndpoint`
--   FilePath: `filepath.Join` and `filepath.Clean`
--   SecretObject: provider/secret_object.go; Validation, Listing its functions, the other children its proofs
--   SecretValue: provider/secret_value.go, `getJsonSecrets`
--   PullLimit: provider/pull_limit.go, `Wait`
--   VersionMap, Provider: provider/secret_manager_provider.go, `GetSecretValues` and what it calls
--     Origins and Sourced say where the bytes of a value come from
--   Auth: auth/auth.go; Config, Decimal and Methods are the inputs and the six methods, Plan the specification
--   Server: server/server.go; Kubernetes is `getK8sClient`, Config and Clients the making of clients, Resolve the
--     loop that gives each object its client, Mount is `Mount`; Health is server/healthz.go and the answers
--     that are constants; the other children are proofs
--   PrivateCa: server/private_ca.go; First to Fourth are the certificates by their lines, Pem says what a
--     certificate of a region is, by base64, DER and the name of the authority
--   Main: main.go, the start and the end of the process; GrpcLog is utils/grpc.go
--   Tests: the theorems at concrete inputs
--
-- How the program is modelled: a string is the list of its code points and `[]byte` a list of numbers; `len`
-- of a string counts the bytes of UTF-8. A pointer to an object of an SDK is its address, and nil is `none`. A
-- Go error is a constructor of `Error`, one for each place that makes one, and a nil dereference is `panic`.
-- The process is a run over the events that it waits for, and the states of the Kubernetes client are those
-- that requests lead to, with any change of the world between two of them.
-- What the program calls outside is a parameter that acts on a world of any type: the SDKs, Kubernetes, the
-- file system, the clock, the environment, encoding/json, base64, yaml and go-jmespath. A Go map is the list
-- of its entries. All loops are structural recursions, so that no fuel is needed. The pause before a retry is
-- in the bits of an int64, the session expiration is read within its range, and the mode of a file is in the
-- bits of an int32; the other numbers do not reach a machine's bounds.
--
-- Not modelled: the messages of the log, the parsing of the command line, and the third-party packages.
pub mod Prelude
pub mod Outcome
pub mod Arn
pub mod Regex
pub mod Endpoint
pub mod FilePath
pub mod SecretObject
pub mod Exec
pub mod Settles
pub mod PullLimit
pub mod SecretValue
pub mod VersionMap
pub mod Provider
pub mod Auth
pub mod Server
pub mod PrivateCa
pub mod Main
pub mod GrpcLog
pub mod Tests
