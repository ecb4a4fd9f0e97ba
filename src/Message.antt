-- ===== src/Message.antt =====
-- What a mail's text tells the mesh: packages/core/src/messages/ack-class.ts and
-- mesh-inject-text.ts, `isSuperviseStatusBroadcast` of mesh-copy.ts, and the footer token.
pub mod AckClass
pub mod InjectText
pub mod SentToken
