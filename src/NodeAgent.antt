-- ===== src/NodeAgent.antt =====
-- backend/internal/nodeagent: the agent that runs on a remote node.
pub mod MemStore
pub mod Token
pub mod Agent
