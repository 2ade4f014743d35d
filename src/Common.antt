-- ===== src/Common.antt =====
-- PyConnectCommon.h and PyConnectCommon.cpp: message codes, the packed encodings of lengths,
-- strings and numbers, the conversion of Python objects, and the encryption of messages.
pub mod Types
pub mod Reader
pub mod Pack
pub mod RoundTrip
pub mod Python
pub mod Objects
pub mod Cipher
