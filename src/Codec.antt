-- ===== src/Codec.antt =====
-- The encodings of Go's standard library that the program calls: encoding/hex, encoding/base64 and
-- hash/crc32. Texts are their bytes.
pub mod Hex
pub mod Base64
pub mod Crc32
pub mod Utf8
pub mod Sha256
