-- ===== src/ObjComm.antt =====
-- PyConnectObjComm.h and PyConnectObjComm.cpp: which channel a message goes to.
pub mod Channels
pub mod Routing
pub mod Processor
