-- ===== src/Http2.antt =====
-- The HTTP/2 wire format (RFC 7540, section 4.1) that both halves of the program speak.
pub mod Frame
