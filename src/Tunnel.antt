-- ===== src/Tunnel.antt =====
-- internal/membertunnel: the queue between the tunnel's receive loop and one stream.
use piper.Prelude.{ℕ}
pub mod FrameQueue
