-- ===== src/Policy.antt =====
-- gwctl/pkg/policymanager: policies of any kind, where they attach, and how they are merged.
pub mod Value
pub mod Machinery
pub mod Crd
pub mod Object
pub mod Manager
pub mod Merge
