-- ===== src/Net.antt =====
-- The socket functions of src/_public.cpp: Readn and Writen, the messages with a length in front, and
-- the two ends of a connection.
pub mod Stream
pub mod Frame
pub mod Client
pub mod Server
