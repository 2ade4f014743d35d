-- ===== src/Wrapper.antt =====
-- PyConnectWrapper.h and PyConnectWrapper.cpp: the side of the C++ program, which exposes the
-- attributes and methods of a module and answers the servers' calls.
pub mod Values
pub mod Module
pub mod Messages
pub mod Bounds
pub mod State
pub mod Input
pub mod Isolation
pub mod Defaults
