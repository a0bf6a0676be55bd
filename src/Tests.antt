-- ===== src/Tests.antt =====
-- Concrete inputs, on which the theorems of the library are applied.
mod Machine
mod Data
mod Merge
mod Specs
mod Unions
mod Models
mod Effective
mod Relations
mod Manager
mod Nodes
mod Backends
mod Overrides
mod Conformance
mod Waits
mod Discoverer
mod Responses
