-- ===== src/Protocol/Ason/RoundTrip.antt =====
-- Every scalar that the encoder writes is read back unchanged.
pub mod Numeral
pub mod Quoted
pub mod Scalar
