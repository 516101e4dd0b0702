-- ===== src/Routing.antt =====
-- crates/dynet-runtime/src: the routing tables, and how a flow is given a group, a node and an
-- outlet. `Types` has the data of model.rs; the other modules follow stores.rs, cidr.rs and model.rs.
pub mod Types
pub mod Cidr
pub mod Matching
pub mod Nodes
pub mod Groups
pub mod Tests
pub mod Dns
