-- ===== src/Session.antt =====
-- lib/session/include/session/session.h: a client's session with its context, and what the world
-- outside answers to it. Logging is left out.
pub mod PrintInfo
pub mod Startup
pub mod Plugins
pub mod Actions
pub mod Operator
use pg_fort.Base.{
  ◌++◌, ℕ, ◌≡◌, Bool, true, false, List, [], ◌∷◌, Option, none, some, Text, codes, Result,
  Exception, if◌then◌else◌,
}
use pg_fort.Base.Dict.{Dict, insert, contains, lookup}
use pg_fort.Common.{Error}
use pg_fort.Conn.Buffer.{Buffer, Socket, Count, new_buffer}
use pg_fort.Schema.Tracker.{emplace, SchemaTracker}
use pg_fort.Query.Acler.{Template}
use pg_fort.Query.Json.{Json}
use pg_fort.Query.Statement.{Query, no_query, Parsed}

pub data Events : Type 0 where
  no_events : Events
  epollin : Events
  epollout : Events

-- `Session::Context`; `ev_fd` and `ev_events` are the fields of `ev_`.
pub record Context : Type 0 where
  pub ev_fd : ℕ
  pub ev_events : Events
  pub initiated : Bool
  pub waiting : Bool
  pub request : Buffer
  pub response : Buffer
  pub query : Query
  pub errno : ℕ

-- `context_({0})`
unfoldable pub new_context : Context
unfolding new_buffer
new_context = record {
  ev_fd = 0;
  ev_events = no_events;
  initiated = false;
  waiting = false;
  request = new_buffer;
  response = new_buffer;
  query = no_query;
  errno = 0;
}

-- `Context::Reset`
unfoldable pub reset : Context → Context
unfolding new_context
reset c = record new_context { initiated = c.initiated }

-- The session without its state machine. The tracker is the one that all sessions share; a client's
-- and a server's connection are known by their sockets.
pub record Session : Type 0 where
  pub parameters : Dict Text
  pub cl_sock : ℕ
  pub sv_sock : ℕ
  pub st : Option SchemaTracker
  pub context : Context

-- What the world answers during one action: the sockets, the parser and deparser, the connection
-- pool (whether it has a connection in time), the database, and
-- the template's file with the JSON parser on a name that needs quoting.
pub record World : Type 0 where
  pub cl_in : Socket
  pub sv_in : Socket
  pub cl_send : Text → Count
  pub sv_send : Text → Count
  pub os_errno : ℕ
  pub parser : Text → Parsed
  pub deparse : Json → Option Text
  pub acquired : Bool
  pub exec_rolsuper : Text → Result Text
  pub exec_test : Text → Option Exception
  pub template : Template
  pub what : Exception → Text

-- The statement that asks for the role attribute of a user, whose name is not escaped.
abbrev pub rolsuper_query : Text → Text
rolsuper_query user = codes "SELECT rolsuper FROM pg_roles WHERE rolname = '" ++ user ++ codes "'"

-- `parameters_[k]` of a map whose values are texts: a missing key is inserted with the empty text.
abbrev pub or_empty : Option Text → Text
or_empty none = []
or_empty (some v) = v

unfoldable pub parameter : Text → Session → Text
parameter k s = or_empty (lookup k s.parameters)

unfoldable pub touch_parameter : Text → Session → Session
touch_parameter k s =
    if contains k s.parameters then s else record s { parameters = insert k [] s.parameters }

-- How a plugin ends: with an error or none, by an exception, or with the process.
pub data Ran : Type 0 where
  done : Session → Error → Ran
  thrown : Session → Exception → Ran
  crashed : Ran

abbrev pub with_context : Session → Context → Session
with_context s c = record s { context = c }

abbrev pub with_query : Session → Query → Session
with_query s q = record s { context = record s.context { query = q } }

abbrev pub with_request : Session → Buffer → Session
with_request s b = record s { context = record s.context { request = b } }

abbrev pub with_response : Session → Buffer → Session
with_response s b = record s { context = record s.context { response = b } }
