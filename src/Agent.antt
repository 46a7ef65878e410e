-- ===== src/Agent.antt =====
-- The protocol between the QEMU backend and the guest agent (internal/runtime/qemu/agentproto).
pub mod Protocol
pub mod Frames
