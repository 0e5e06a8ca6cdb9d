-- ===== src/Script.antt =====
-- The package script/: transaction scripts.
pub mod Opcode
pub mod Error
pub mod Bytes
pub mod Stack
pub mod Builder
pub mod Parser
pub mod Standard
pub mod Signature
pub mod MultiSig
pub mod Interp
pub mod Reader
pub mod Contract
pub mod Items
pub mod Token
pub mod Address
