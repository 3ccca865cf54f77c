-- ===== src/Tests.antt =====
-- Tests on concrete values, and each theorem of the results at values where its hypotheses hold.
mod Values
mod Library
mod Requests
mod Lifecycle
mod Phases
mod Finalizer
mod Returns
mod Scheme
mod DeepCopy
mod Renewals
mod Denials
mod Issuers
mod Composition
mod Manager
mod Sources
