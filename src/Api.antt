-- ===== src/Api.antt =====
-- The API types of the operator (api/v1alpha1) and of the Kubernetes objects that it handles.
pub mod Meta
pub mod DnsRecord
pub mod DnsZone
pub mod DnsConnector
