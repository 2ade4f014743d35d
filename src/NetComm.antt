-- ===== src/NetComm.antt =====
-- PyConnectNetComm.cpp: the framing of messages on a stream, the list of client connections, and
-- the negotiation over UDP.
pub mod Frame
pub mod Stream
pub mod StreamSafety
pub mod Caching
pub mod Delivery
pub mod Loss
pub mod Clients
pub mod ClientLaws
pub mod Pointers
pub mod PointerLaws
pub mod Unlinking
pub mod PointerRefinement
pub mod Incoming
pub mod IncomingLaws
pub mod Sending
pub mod Datagram
pub mod Negotiation
pub mod EventLoop
pub mod EventLaws
pub mod Reachable
pub mod Listeners
pub mod PortSearch
pub mod Closing
pub mod ClosingLaws
pub mod Closed
pub mod Talkers
pub mod LocalServers
pub mod Startup
pub mod Survivors
pub mod Arrival
pub mod Enabling
pub mod Shutdown
