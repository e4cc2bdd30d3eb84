-- ===== src/Session.antt =====
-- The state that the packet handlers share: the transport and the channel.
pub mod Send
pub mod Recv
pub mod Open
pub mod Request
pub mod Flow
pub mod Adjust
pub mod Command
pub mod Once
pub mod Opening
pub mod Reach
pub mod Dispatch
use tinyssh.Channel.{Channel}
use tinyssh.Packet.{Packet}

pub record Session : Type 0 where
  pub packet : Packet
  pub channel : Channel
