-- ===== src/Charset.antt =====
-- ad_system/common/encode_convert.cpp and CharConvertTool/: tests for character sets and conversions.
pub mod Utf8
pub mod Gbk
pub mod Convert
