-- ===== src/ProxyServer.antt =====
-- lib/proxy-server/proxy-server.cpp: the loop that accepts clients and hands their sessions to the
-- session operator.
pub mod Clients
use mathlib.Core.Option
use pg_fort.Base.{ℕ, Bool, List, [], ◌∷◌, Option, none, some}
use pg_fort.Conn.Sockets.{Dialing, ServerConn, server_conn, client_conn}
use pg_fort.Schema.Tracker.{SchemaTracker}
use pg_fort.Session.Actions.Run.{new_session}
use pg_fort.Session.Operator.{Operator, new_operator, submit}
use pg_fort.Session.Operator.Watched.{Running}

-- What the system answers to the constructor: the socket, and whether `setsockopt`, `bind`, `fcntl`
-- and `listen` work.
pub record Opening : Type 0 where
  pub opened_socket : ℕ
  pub sets_option : Bool
  pub binds : Bool
  pub sets_nonblocking : Bool
  pub listens : Bool

-- The socket that listens, as far as the calls on it have worked; the `timeval` that `select` is
-- given, in microseconds; the schema tracker; and the session operator.
pub record ProxyServer : Type 0 where
  pub listener : ℕ
  pub reuses_address : Bool
  pub bound : Bool
  pub nonblocking : Bool
  pub listening : Bool
  pub timeout : ℕ
  pub tracker : Option SchemaTracker
  pub operator : Operator Running

-- The constructor, whose errors are logged and no more, and the start of `Run`.
unfoldable pub new_proxy_server : Opening → Option SchemaTracker → ProxyServer
new_proxy_server w st = record {
  listener = w.opened_socket;
  reuses_address = w.sets_option;
  bound = w.binds;
  nonblocking = w.sets_nonblocking;
  listening = w.listens;
  timeout = 3000000;
  tracker = st;
  operator = new_operator;
}

-- The result of `select`: zero, negative or positive.
pub data Selecting : Type 0 where
  elapsed select_failed readable : Selecting

-- What the system answers in one turn of the loop: `select`, with what it leaves in the `timeval`,
-- `accept`, `fcntl`, the constructor of the connection to the server, and the address of the new
-- session.
pub record Turn : Type 0 where
  pub selecting : Selecting
  pub time_left : ℕ
  pub accepted_socket : Option ℕ
  pub fcntl_answer : Bool
  pub dialing : Dialing
  pub session_id : ℕ

abbrev pub session_of_turn : Turn → Option SchemaTracker → ℕ → ServerConn → ℕ × Running
session_of_turn t st sock sv =
    (t.session_id, new_session (client_conn sock t.fcntl_answer).client_socket sv.server_socket st)

abbrev pub on_accepted : Turn → ProxyServer → Option ℕ → Option ProxyServer
on_accepted t s none = some s
on_accepted t s (some sock) =
    Option.map
      (λ sv. record s { operator = submit (session_of_turn t s.tracker sock sv) s.operator })
      (server_conn t.dialing)

abbrev pub on_selecting_turn : Turn → ProxyServer → Selecting → Option ProxyServer
on_selecting_turn t s elapsed = some s
on_selecting_turn t s select_failed = some s
on_selecting_turn t s readable = on_accepted t s t.accepted_socket

-- One turn of `ProxyServer::Run`; `none` is what is undefined.
unfoldable pub serve_turn : Turn → ProxyServer → Option ProxyServer
unfolding server_conn client_conn submit new_session
serve_turn t s = on_selecting_turn t (record s { timeout = t.time_left }) t.selecting

abbrev pub then_serve : Option ProxyServer → (ProxyServer → Option ProxyServer) → Option ProxyServer
then_serve none k = none
then_serve (some s) k = k s

unfoldable pub serve : List Turn → ProxyServer → Option ProxyServer
unfolding serve_turn
serve [] s = some s
serve (t ∷ ts) s = then_serve (serve_turn t s) (λ s'. serve ts s')
