-- ===== src/Tests/Server.antt =====
-- A run of the loop that accepts clients.
use pg_fort.Base.{◌≡◌, refl, true, false, List, [], ◌∷◌, ◌++◌, none, some}
use pg_fort.Conn.Sockets.{Dialing}
use pg_fort.ProxyServer.{ProxyServer, elapsed, readable, Turn, new_proxy_server, serve}
use pg_fort.ProxyServer.Clients.{arrivals, serve-arrivals}

-- The first address refuses the connection.
abbrev second_works : Dialing
second_works = record { new_socket = 9; addresses = some (false ∷ true ∷ []); fcntl_works = true }

abbrev none_works : Dialing
none_works = record { new_socket = 11; addresses = some (false ∷ []); fcntl_works = true }

abbrev some_turns : List Turn
some_turns =
    record {
      selecting = readable;
      time_left = 1000;
      accepted_socket = some 8;
      fcntl_answer = true;
      dialing = second_works;
      session_id = 100;
    }
    ∷ record {
      selecting = elapsed;
      time_left = 0;
      accepted_socket = none;
      fcntl_answer = true;
      dialing = second_works;
      session_id = 101;
    }
    ∷ record {
      selecting = readable;
      time_left = 0;
      accepted_socket = some 10;
      fcntl_answer = true;
      dialing = none_works;
      session_id = 102;
    }
    ∷ []

abbrev fresh_server : ProxyServer
fresh_server =
    new_proxy_server
      (record {
        opened_socket = 3;
        sets_option = true;
        binds = true;
        sets_nonblocking = true;
        listens = true;
      })
      none

serve-arrivals_example :
    (s' : ProxyServer) × (serve some_turns fresh_server ≡ some s')
    × (s'.operator ≡ record fresh_server.operator {
      queue = fresh_server.operator.queue ++ arrivals some_turns fresh_server.tracker;
    })
serve-arrivals_example =
    serve-arrivals some_turns fresh_server
      ((false ∷ true ∷ [], refl), ((false ∷ true ∷ [], refl), ((false ∷ [], refl), tt)))
