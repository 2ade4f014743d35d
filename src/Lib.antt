-- ===== src/Lib.antt =====
-- PyConnect lets a Python program (the server) use the attributes and methods of C++ programs (the
-- modules). Each side runs one message processor over shared communication objects:
--
--   * PyConnectCommon.h and PyConnectCommon.cpp encode numbers, strings and Python objects: Common.
--     Types has the codes, Reader the pointer and count that readers advance, Pack the packed
--     integers (packIntToStr, unpackStrToInt), strings (packString, unpackString) and little-endian
--     numbers; Cipher is encryptMessage and decryptMessage; Python has PyConnectType's
--     conversions over the calls of the C API that they make.
--   * PyConnectObjComm.h and PyConnectObjComm.cpp map remote objects to channels, and hand messages to
--     the communication objects: ObjComm, with Channels and Processor.
--   * PyConnectNetComm.cpp moves bytes over connections: NetComm. Clients is the class with its list of
--     connections, and Pointers the nodes of that list on the heap. Frame is what clientDataSend and
--     localBroadcastSend write around an encrypted message, and Sending the functions that send.
--     Stream is the inner loop of processIncomingData, with the buffer of a connection as a record,
--     Incoming the loop over the connections, Datagram processUDPInput, and EventLoop
--     processIncomingData as a whole. Listeners and Closing switch the network on and off, and
--     Talkers is createTalker, LocalServers consolidateIPCSockets, and Startup init and the main loop.
--     Reachable has the events as a step relation, and Arrival a message's way over one connection.
--   * PyConnectWrapper.h and PyConnectWrapper.cpp are the module's side: Wrapper. Values is
--     PyConnectData, Defaults its overloads with a default value, Module the maps of attributes and
--     methods, Messages what is sent, State the map of servers and the accessors that the export macros
--     generate, and Input processInput.
--   * PyConnectStub.h and PyConnectStub.cpp are the server's side: Stub. Object is PyConnectObject with
--     its attributes and methods, Changes what a message may do to one, Registry the list of modules,
--     Expose the reading of an exposure,
--     Messages what is sent, Attributes what scripts do (getAttribute, setAttribute, pyCall), Commands
--     the functions of the Python module, and Input processInput.
--   * Protocol has the theorems across the two sides: the handshake (Exposure, Handshake, Assignment),
--     the calls of scripts (Arguments, Calls, Setting), and the updates of attributes (Update); Examples
--     has a lamp with two attributes.
--
-- A module declares itself, the server adds an object and assigns an identifier, and the module answers
-- with its exposure and its descriptions; then calls go to the module and responses to the server.
--
-- A function that changes state takes it and returns the new one, with a list of effects in the order
-- of the code: messages that are dispatched, callbacks, and the interpreter's lock. A read past the end of
-- the memory behind a pointer, a write past the end of a buffer and a call of a null pointer are `none`
-- or `fault`. `receive` runs its loop with as many rounds as the read has bytes, which is enough since
-- every round that goes on takes at least one. An `int` that is read is taken as it is sent, a count
-- of bytes is an integer, and a C++ `float` or `double` is its bit pattern.
--
-- The loop over the connections, the walks over the nodes and the search for a port take fuel: one step
-- more than there are connections, and 101 attempts, are enough. `none` in NetComm is a fault or an
-- abort.
--
-- Parameters: the Python C API and OpenSSL's cipher (records with their documented laws), the results
-- of the system calls (new descriptors are not those of open connections), decryption in the two
-- processInput functions, the compiler's order of evaluation, and the methods of the program.
--
-- A call of the message processor from the event loop may change the channels of the objects and its
-- own state; a script's callback that connects to another program within such a call is left out, as is
-- what a method of the program sends while it runs.
--
-- Not modelled: a module without an object (its exposure reads through a null pointer), FD_SETSIZE,
-- Windows, multicast, socket options of connections, the key of the cipher, locks around the list of
-- connections, logging, reference counts, PyConnectPyModule.cpp, tests and build files.
pub mod Base
pub mod Common
pub mod ObjComm
pub mod NetComm
pub mod Wrapper
pub mod Stub
pub mod Protocol
pub mod Examples
