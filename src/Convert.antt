-- ===== src/Convert.antt =====
-- Values on their way between the application and the server (convert.c).
pub mod Literal
pub mod Hex
pub mod Binary
pub mod Numeric
pub mod Linefeeds
pub mod Fraction
