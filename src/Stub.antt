-- ===== src/Stub.antt =====
-- PyConnectStub.h and PyConnectStub.cpp: the side of the Python server, which keeps an object for
-- each remote module and sends calls to it.
pub mod Expose
pub mod Object
pub mod Messages
pub mod Registry
pub mod Keys
pub mod Attributes
pub mod Input
pub mod Invariant
pub mod Lock
pub mod Commands
pub mod CommandLaws
pub mod Changes
