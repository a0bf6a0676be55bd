-- ===== src/Discovery.antt =====
-- gwctl/pkg/resourcediscovery: the model of the discovered resources. A node is created once for
-- its id and never replaced in the map that holds it, so a pointer to a node is modelled by the
-- node's id: following a pointer is looking the id up. A `PolicyNode` is complete when the round
-- of the loop that makes it ends, and is never changed later, so it is held by value.
pub mod Id
pub mod Errors
pub mod Node
pub mod Model
pub mod Connect
pub mod Attach
pub mod Proper
pub mod Effective
pub mod Client
pub mod Fetch
pub mod Notes
pub mod Expand
pub mod Discoverer
