-- ===== src/Highway.antt =====
-- The protocol Highway, client/highway and server/highway. Frames has the heads of frames and the reading of a
-- connection, Messages the requests and responses in frames, Client the calls that wait for an answer, Pool the
-- connections of a client, Server the handling of a frame, and Receiving the loops that read connections with their handshakes.
pub mod Frames
pub mod Messages
pub mod Client
pub mod Pool
pub mod Server
pub mod Receiving
