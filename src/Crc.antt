-- ===== src/Crc.antt =====
-- The two checksums: crc_ppp.cpp (the frame check of AXUDP packets) and crc_32.c with hashing.cpp
-- (the hash that names a packet), over one theory of shift registers.
pub mod Register
pub mod Bytewise
pub mod Table
pub mod Ppp
pub mod Ccitt32
