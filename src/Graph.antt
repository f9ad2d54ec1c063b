-- ===== src/Graph.antt =====
-- The graph algorithms of mcp/gxp_core/business_graph_algorithms.py.
pub mod Adjacency
pub mod Search
pub mod Reachable
pub mod Undirected
pub mod Components
pub mod Partition
pub mod Paths
pub mod Trails
pub mod Routes
pub mod Neighborhood
pub mod Around
mod Tests
