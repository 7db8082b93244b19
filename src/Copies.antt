-- ===== src/Copies.antt =====
-- api/v1alpha1/zz_generated.deepcopy.go: the copies of the API objects in a memory with references.
pub mod Memory
pub mod References
pub mod Seen
pub mod DeepCopyInto
pub mod DeepCopy
pub mod DeepCopyObject
