-- ===== src/Lib.antt =====
-- smallchat: a chat server in C++ with a terminal client and a WebSocket gateway.
--
-- The server (src/server.cpp) accepts connections and reads lines. A line that starts with '/' is a
-- command, "MSG" and the FILE_ and READ_RECEIPT words start protocol lines, and any other line is
-- said aloud, to the client's room or to all. The wire format is in src/common.cpp and
-- include/common.h; src/client.cpp reads what the server sends and src/main_client.cpp is its terminal;
-- src/web_server.cpp, or src/web_server_impl.cpp in its place, joins browsers to the same server.
--
-- - Base: names shared by all files, tests, lists, texts as lists of bytes, and std::unordered_map
--   as an association list (the order of iteration is the order of the list).
-- - Std: conversions of the C++ library: std::to_string, std::stoi, std::stoull (with their ranges)
--   and reading words and the rest of a line from a stream.
-- - Codec: src/common.cpp. Base64 is base64Encode and base64Decode; Message is the MSG frame;
--   Frames is the rest of ChatProtocol; Lines is the buffer of handleClient and receiveThread.
-- - Utils: the namespace utils of src/common.cpp; Utils/Emojis tells the loops of replaceEmojis
--   without fuel, Utils/Trim what trim cuts off.
-- - Server: src/server.cpp. State has ClientInfo, ChatRoom and the tables of ChatServer as records;
--   Send the sending calls; Password, Users, History, Account, Rooms, Talk, Admin, Files and Leave
--   the functions and command branches of that name; Command the dispatch of handleCommand; Messages
--   and Relay the branches of handleClient; Line a whole line, a connection, and the step from one
--   input of the server to the next; Threads the loops of acceptConnections and handleClient, round by
--   round. Registry is about clients_, name_to_socket_ and client_threads_
--   together. Life has start and stop of ChatServer with its two files, and Life/Mutex the end of stop
--   and the client threads with threads_mutex_ between them, step by step. WebClients has the table of
--   web users. Admin/Rights is about is_admin, Admin/Silence about the time of a mute, Files/Pieces about
--   the frames of a file, Leave/Never about the thread of a client.
-- - Client: ChatClient of src/client.cpp, its requests and processMessage; Client/Connection connects,
--   starts and stops it and has receiveThread.
-- - Terminal: the loop of src/main_client.cpp and its callbacks. Programs: src/main_server.cpp with its
--   loop and signal handler (Programs/Serve), src/main_client.cpp up to its loop (Programs/Talk), and
--   src/main_web.cpp.
-- - Chat: the server, the client and its terminal put together, from the line that one user types to
--   the screen of another.
-- - Web: the WebSocket callback of src/web_server.cpp; Web/Page the page, the HTTP callback and the table
--   of protocols; Web/Sessions what comes from the connections over time; Web/Service its start, stop
--   and service thread, step by step. Beast: the sessions of src/web_server_impl.cpp; Beast/Listener
--   its listener and HTTP part.
--
-- A handler takes the server's state and returns the one after, or an Outcome: `returns`, or `stops`
-- with the reason that the call does not return (an exception that nothing catches, a join that
-- throws or waits) and the state at that moment. What is sent, called back, closed or saved is
-- appended to `out`, oldest first.
--
-- From outside come, as the record Env, the clock, random ids and salts, the key derivation, the
-- order of the emoji table, the file system, the text of a time, and which threads have returned.
--
-- The loops that take lines from a buffer, lines from a file and blocks from a file run on fuel, the
-- length of the text: each round takes a byte at least. The digits of a number run on a fuel above
-- the number.
--
-- In start and stop what the operating system answers is a record of Booleans and sockets (System,
-- Network, Acceptor), and what libwebsockets and Boost answer are Booleans too. A std::thread is
-- whether it is joinable; where it matters whether it ends, that is an argument. Of a client thread
-- that stop joins it is which calls of removeClient it has left.
--
-- Not modelled: sockets and threads themselves (a handler runs as one step, a send cannot fail, and the mutexes but
-- threads_mutex_ at the end of stop are left out),
-- SSL, debug output, examples and scripts. src/web_server_impl.cpp is not built.
-- CMakeLists.txt never defines OPENSSL_FOUND for the compiler, so the code is taken without it; the
-- key derivation is a parameter where that does not matter.
pub mod Base
pub mod Std
pub mod Codec
pub mod Utils
pub mod Programs
pub mod Server
pub mod Chat
pub mod Client
pub mod Terminal
pub mod Beast
pub mod Web
