-- ===== src/Protocol.antt =====
-- The SPEC wire protocol: command and type codes, headers, messages and streams of messages.
pub mod Command
pub mod TypeCode
pub mod Fields
pub mod Struct
pub mod Layout
pub mod Payloads
pub mod Messages
