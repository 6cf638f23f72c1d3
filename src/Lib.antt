-- ===== src/Lib.antt =====
-- The messenger: a server with logins, sessions and chat rooms, and its clients.
--
-- A client connects to the server over TCP, signs up or logs in, and is then handed from the
-- login thread to the dispatcher, which answers its requests: lists, sessions with one other user,
-- chat rooms, exit. The texts between two clients go over UDP, at the addresses that the server
-- has told them.
--
--   Base               texts as lists of bytes, tests on numbers, lemmas on lists.
--   Wire               ServerSide/src/Common.h and ClientSide/src/Common.h (readCommand,
--                      writeCommand, readMsg, writeMsg) over recv and send of
--                      msockets/src/TCPSocket.cpp.
--   Protocol           msockets/src/Protocol.h.
--   Address            destIpAndPort of msockets/src/TCPSocket.cpp, and the loops of
--                      ClientSide/src/Client.cpp that take the text apart.
--   Listener           listenToSocket of msockets/src/MultipleTCPSocketsListener.cpp.
--   OrderedMap         std::map with names as keys, a list in the order of the keys.
--   Dispatcher         ServerSide/src/Dispatcher.cpp, ChatRoom.cpp and User.cpp: State has the
--                      objects, Monad the actions, Caller the loop that finds the user of a
--                      socket and add_user, Sessions open_session and close_session, Members the
--                      list of a room, Rooms create_chatroom, join_chatroom and leave_chatroom,
--                      CloseRoom close_chatroom, Listings the list requests, Loop user_exit,
--                      run and close; Taken is a round that has a command to answer. Rooms/Join,
--                      Rooms/Leave, Rooms/JoinLeave and Exit have what becomes of a room.
--   Login              ServerSide/src/LoginAndSignUp.cpp: run and addPeer; Login/File has
--                      users.txt and the loops over it, Login/Interleaving the two threads,
--                      Login/Start the server as it starts.
--   Client             ClientSide/src/Client.cpp: Requests has what the client asks, Handlers
--                      what it does with an answer, Run the loop of its thread, Console the loop
--                      of main. Delivered takes the server's packets as a client's stream, and
--                      Sessions, Rooms, Departures and Lists what the client makes of them;
--                      Printed and Console/Printed have the lines that it prints.
--                      Peer has ClientSide/src/Peer2Peer.cpp over msockets/src/UDPSocket.cpp.
--   Console            what both consoles read from cin.
--   Objects            what new and delete do to the objects that the server deletes.
--   ServerConsole      ServerSide/src/Server.cpp: main, run and close, with what
--                      ServerSide/src/Dispatcher.cpp prints of its state, and close of
--                      ServerSide/src/LoginAndSignUp.cpp. Spoiled is a server whose threads have
--                      gone through a round.
--   Conversation       the parts together, from what a client writes to what the clients make of
--                      the answer: a session and its end (Ending), a login (Entry), a signup
--                      and a second one under its name (Enrolment, Enrolment/Twice), a chat room
--                      (Entering, Leaving; Entering/Printed has what is printed), a list (Listing).
--                      Gathering has a room with its clients from its start (Creating, Created)
--                      through any sequence of users that enter and leave to its end (Closing).
--   Sockets            msockets/src/TCPSocket.cpp, UDPSocket.cpp and MThread.cpp, over system calls
--                      that are parameters, with connectToServer of ClientSide/src/Client.cpp and
--                      the object of ClientSide/src/Peer2Peer.cpp.
--
-- A function of the source has the same name here, in lower case with underscores, and takes and
-- returns the state. On the server a result `none` is undefined behaviour: NULL or an unset
-- pointer dereferenced, or the buffer of readMsg overrun. A pointer is a number into a heap of
-- users or of rooms, which are never freed, as in the source; of the objects that are, Objects and
-- ServerConsole have whether a pointer is to one that was deleted. `users_map[name]` on a missing
-- name inserts NULL, which every caller dereferences at once, so it is a fault.
--
-- The stream of a connection is a list of arrivals, one for each portion that read(2) finds. Every
-- number is a natural number; the four bytes of a length or a command are taken modulo 2^8 each.
-- The buffer of readMsg has 300 bytes. Ten units of fuel print any number below 10^10, and a port
-- is below 65536. The loops over maps and lists are structural. The dispatcher's loop goes over a
-- list of outcomes of select, the client's runs on fuel, where one round takes one unit, and the
-- login thread is taken round by round, for any socket that is ready. The consoles run on fuel,
-- where one command takes one unit; the bytes of the input bound the commands that can be read.
--
-- Not modelled: what runs in a thread of msockets/src/MThread.cpp while another one is in the
-- middle of a round, the bytes of a sockaddr_in, and the objects that a client frees. What select, accept and connect give is an argument. What two threads do at once
-- is modelled only where whole rounds follow each other: the consoles, too, run by themselves. A
-- write to a socket that is NULL is not told apart from another: every socket that enters the
-- dispatcher comes from accept.
pub mod Base
pub mod Wire
pub mod Objects
pub mod OrderedMap
pub mod Protocol
pub mod Address
pub mod Listener
pub mod Dispatcher
pub mod Login
pub mod Client
pub mod Console
pub mod ServerConsole
pub mod Conversation
pub mod Sockets
