-- ===== src/Access.antt =====
-- Who may act on a workflow instance, and who may see it: the candidate-actor rules of
-- crates/wfe-core/src/v22/{resolver,matcher,grants,visibility}.rs.
pub mod Ports
pub mod Resolver
pub mod Matcher
pub mod Grants
pub mod Visibility
