-- ===== src/Mcp.antt =====
-- internal/mcp: the tools and resources of the MCP server.
pub mod Server
pub mod Tools
pub mod Resources
pub mod Specs
pub mod Registration
pub mod Answers
