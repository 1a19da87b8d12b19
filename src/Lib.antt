-- ===== src/Lib.antt =====
-- A verification library for pg-fort, a proxy in front of PostgreSQL that rewrites the queries of its
-- clients so that they see only the rows that they have access to.
--
-- A client's session is a state machine (lib/session/session.cpp). It receives a request, applies
-- the plugins of lib/session/plugin.cpp to it, forwards it to the server, receives the response,
-- applies the plugins for responses and forwards that to the client. A plugin reads the query's
-- parse tree (lib/query), asks the tracker which tables are under access control (lib/schema), and
-- writes a request or a response (lib/conn). All paths are below src of the repository.
--
-- Files and code:
--   Base, Base/*               shared: Boolean tests on numbers, texts as lists of bytes, results of
--                              code that throws, association lists
--   Common                     lib/common/include/common/error.h: Error
--   Conn/Buffer                lib/conn/buffer.cpp: Buffer, RecvFrom (recv_from), SendTo (send_to)
--   Conn/Message               lib/conn/include/conn/request.h and response.h: SetQuery (set_query),
--                              SetError (set_error)
--   Conn/Pool                  lib/conn/pqxx-conn.cpp: Acquire (acquire), Release (start_release,
--                              end_release)
--   Conn/Sockets               lib/conn/client-conn.cpp (client_conn), server-conn.cpp (server_conn)
--   Concurrency/ThreadPool     lib/concurrency/include/concurrency/thread-pool.h
--   Concurrency/Queue          lib/concurrency/include/concurrency/blocking-queue.h: Push (push), Pop
--                              (pop)
--   Schema/Tracker             lib/schema/schema-tracker.cpp: Refresh, AddRelName (add_rel_name),
--                              Exist (exist)
--   Query/Json                 lib/query/include/query/jsonutil.h: FindNode (find_node), and what is
--                              used of nlohmann::json
--   Query/Acler                lib/query/query-acler.cpp: Acl (acl), AclSelectStmt (acl_select),
--                              AclSelectStmtFromClause (acl_from); include/query/join_expr.tpl
--                              (join_expr)
--   Query/Regex                what is used of std::regex: a backtracking matcher (match_at) and
--                              regex_search (find)
--   Query/ProxyCommand/*       lib/query/proxy-command.cpp: the patterns, the loops over matches
--                              (rewrite, format), the eleven passes, Translate (translate)
--   Query/Statement            lib/query/query.cpp: Parse (parse_query), ToString (to_string)
--   PersistentDeque/*          lib/persistent-deque/persistent-deque.cpp: PushBack (push_back),
--                              PushFront (push_front), Back (back), Front (front), Size (size_of_deque),
--                              Pop (pop_element), Release (release)
--   StateMachine               lib/state-machine/include/state-machine/state-machine.h
--   Session                    lib/session/include/session/session.h: the session, its context, and
--                              the world's answers
--   Session/PrintInfo          lib/session/print-info.cpp: PrintInfo (print_info)
--   Session/Startup            lib/session/session.cpp: the loop over a StartupMessage in Initiate
--   Session/Actions            lib/session/session.cpp: the twelve states and their actions (act)
--   Session/Actions/Run        lib/session/session.cpp: the constructor, operator() and its repetition
--   Session/Plugins/*          lib/session/plugin.cpp: one definition for each plugin, and the chains
--   Session/Operator           lib/session/session-operator.cpp: Work (work), AddToWatch
--                              (add_to_watch), Watch, as steps of the places where sessions are;
--                              lib/concurrency: Submit (submit)
--   ProxyServer                lib/proxy-server/proxy-server.cpp: the constructor (new_proxy_server) and
--                              the loop of Run (serve_turn, serve)
--   Tests/*                    runs at concrete inputs
-- The modules below these hold the proofs and are named for what they prove.
--
-- State is passed on explicitly. An action or plugin takes a World, which holds what everything
-- outside of the sources answers during it: recv and send, libpg_query, the connection pool, the
-- database, and the file of the template with the JSON parser on a name that needs quoting.
-- Nothing is assumed of these answers but what a theorem says. An exception, an error and the end
-- of the process (a failed assertion, a null pointer, an access outside of a vector, an uncaught
-- exception) are values. Numbers of the machine keep their wrap-around where the code can reach
-- it: the length fields of messages are bytes of numbers modulo 2^32, and what RecvFrom returns
-- is cut to a signed number of 32 bits. The sizes of a buffer, which are of the type size_t, do
-- not wrap: no buffer comes near. `__FILE__` is that of the build in the Dockerfile.
--
-- The rows of a deque are kept the latest first, each with the connection that has locked it; the
-- operations of a deque take a record of Answers in the way of a World. `_seq` does not reach 2^63.
--
-- Fuel: recv_from has one round for each byte that has arrived and one for the end, and a round
-- takes a byte or more; read_parameters has one for each byte of the message and one more. That both
-- are enough is part of the results. A translation has one round for each character and one more,
-- and each round takes a match of a character or more; the loop over the columns likewise, and the
-- answer that would stand for too few rounds is never given. print_fields has one for each byte of
-- the vector and one more, and a round reads two bytes or more. Everything else recurs on its data.
--
-- Not modelled: logging but PrintInfo, whose calls the actions of a session leave out; the start
-- and end of threads; main, which only makes the parts. Objects of JSON have their fields in the
-- order of their keys; the model does not demand it, so what is shown holds without it.
pub mod Base
pub mod Common
pub mod Concurrency
pub mod Conn
pub mod Schema
pub mod Query
pub mod PersistentDeque
pub mod StateMachine
pub mod Session
pub mod ProxyServer
pub mod Tests
