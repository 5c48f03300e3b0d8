-- ===== src/Base64.antt =====
-- libwired/crypto/wi-base64.c.
pub mod Codec
mod Bits
pub mod RoundTrip
