-- ===== src/Codec.antt =====
-- src/helpers.c: the texts that stand for ids, and the cutting of UTF-8 texts.
pub mod Hex
pub mod Utf8
