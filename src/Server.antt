-- ===== src/Server.antt =====
-- server/server.go: the requests of the CSI driver.
pub mod Keyed
pub mod Kubernetes
pub mod Config
pub mod Clients
pub mod Resolve
pub mod Mount
pub mod Resolved
pub mod Answer
pub mod Mounted
pub mod Endpoints
pub mod Certificates
pub mod Health
pub mod Kinds
pub mod Shared
pub mod Sharing
pub mod OneClient
pub mod Roles
pub mod RoleCredentials
pub mod Errors
pub mod Supplied
pub mod Fetched
pub mod Fetchable
pub mod FetchSettled
pub mod ResolveSettled
pub mod Sound
pub mod MountSettled
pub mod Complete
pub mod Reached
pub mod Succeeds
