-- ===== src/Tunnel.antt =====
-- The two ends of the tunnel, hyperagg/tunnel/client.py and hyperagg/tunnel/server.py.
pub mod Frames
pub mod Server
pub mod Classify
pub mod Client
