-- ===== src/Text.antt =====
-- What the code uses of C's formatted text: decimal numbers as `fprintf` writes them and `sscanf`
-- reads them, and `strstr` and `strchr`.
pub mod Decimal
pub mod Search
