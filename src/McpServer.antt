-- ===== src/McpServer.antt =====
-- What internal/mcpserver checks before a tool calls the platform's API.
pub mod Policy
pub mod Validate
pub mod Client
pub mod Wire
pub mod Platform
pub mod Tool
pub mod Gate
pub mod Badges
pub mod Tools
pub mod Resources
pub mod Prompts
pub mod Examples
