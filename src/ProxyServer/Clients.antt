-- ===== src/ProxyServer/Clients.antt =====
-- Which sessions the loop of lib/proxy-server/proxy-server.cpp hands on.
use mathlib.Core.Option
use mathlib.Core.List.{append_assoc, append-nil}
use pg_fort.Base.{
  true, ◌&&◌, ◌≡◌, refl, sym, ap, ◌∙◌, ℕ, Bool, List, [], ◌∷◌, ◌++◌, Option, none, some,
}
use pg_fort.Conn.Sockets.{Dialing, ServerConn, server_conn, client_conn, connect_to, on_addresses}
use pg_fort.Schema.Tracker.{SchemaTracker}
use pg_fort.Session.Operator.{Operator, submit}
use pg_fort.Session.Operator.Watched.{Running, start_session}
use pg_fort.ProxyServer.{
  session_of_turn, ProxyServer, Selecting, elapsed, select_failed, readable, Turn, on_accepted,
  on_selecting_turn, serve_turn, serve, then_serve,
}

-- The sockets of the clients that are accepted, each with the socket to the server and the address of
-- the session, in their order.
abbrev pub arrival : Selecting → Option ℕ → Turn → Option SchemaTracker → List (ℕ × Running)
arrival elapsed o t st = []
arrival select_failed o t st = []
arrival readable none t st = []
arrival readable (some sock) t st =
    (t.session_id, start_session (sock, (t.dialing.new_socket, st))) ∷ []

abbrev pub arrivals : List Turn → Option SchemaTracker → List (ℕ × Running)
arrivals [] st = []
arrivals (t ∷ ts) st = arrival t.selecting t.accepted_socket t st ++ arrivals ts st

-- The addresses of the server are found in each turn.
abbrev pub AllFound : List Turn → Type 0
AllFound [] = Unit {0}
AllFound (t ∷ ts) = ((found : List Bool) × (t.dialing.addresses ≡ some found)) × AllFound ts

abbrev Handed : List (ℕ × Running) → ProxyServer → Option ProxyServer → Type 0
Handed new s o =
    (s' : ProxyServer) × (o ≡ some s')
    × (s'.tracker ≡ s.tracker)
    × (s'.operator ≡ record s.operator { queue = s.operator.queue ++ new })

nothing-Handed : (s : ProxyServer) → Handed [] s (some s)
nothing-Handed s =
    (s, refl, refl, ap (λ q. record s.operator { queue = q }) (sym (append-nil s.operator.queue)))

-- The server's connection, whether it is connected or not, has the new socket.
dialled : Dialing → List Bool → ServerConn
unfolding connect_to
dialled w found = record {
  server_socket = w.new_socket;
  connected = connect_to true found;
  server_nonblocking = connect_to true found && w.fcntl_works;
}

server_conn_found :
    (w : Dialing) (found : List Bool)
    → w.addresses ≡ some found
    → server_conn w ≡ some (dialled w found)
unfolding server_conn dialled
server_conn_found w found h = ap (on_addresses w) h

accepted-Handed :
    (t : Turn) (s : ProxyServer) (found : List Bool) (o : Option ℕ)
    → t.dialing.addresses ≡ some found
    → Handed (arrival readable o t s.tracker) s (on_accepted t s o)
unfolding submit client_conn dialled
accepted-Handed t s found none h = nothing-Handed s
accepted-Handed t s found (some sock) h =
    let new : ℕ × Running = session_of_turn t s.tracker sock (dialled t.dialing found) in
    (
      record s { operator = submit new s.operator },
      ap
          (Option.map
            (λ sv. record s { operator = submit (session_of_turn t s.tracker sock sv) s.operator }))
          (server_conn_found t.dialing found h),
      refl,
      refl,
    )

selecting-Handed :
    (t : Turn) (s : ProxyServer) (found : List Bool) (r : Selecting)
    → t.dialing.addresses ≡ some found
    → Handed (arrival r t.accepted_socket t s.tracker) s (on_selecting_turn t s r)
selecting-Handed t s found elapsed h = nothing-Handed s
selecting-Handed t s found select_failed h = nothing-Handed s
selecting-Handed t s found readable h = accepted-Handed t s found t.accepted_socket h

-- The loop over any turns hands the session of each accepted client, and no other, to the operator's
-- queue, in the order of their acceptance. It does so too where a connection to the server has
-- failed. The addresses of the server are found in each turn.
pub serve-arrivals :
    (ts : List Turn) (s : ProxyServer)
    → AllFound ts
    → (s' : ProxyServer) × (serve ts s ≡ some s')
      × (s'.operator ≡ record s.operator { queue = s.operator.queue ++ arrivals ts s.tracker })
unfolding serve serve_turn
serve-arrivals [] s h =
    (s, refl, ap (λ q. record s.operator { queue = q }) (sym (append-nil s.operator.queue)))
serve-arrivals (t ∷ ts) s ((found, f), h) =
    let timed : ProxyServer = record s { timeout = t.time_left } in
    let (s', e, tr, o) = selecting-Handed t timed found t.selecting f in
    let (s'', e', o') = serve-arrivals ts s' h in
    let now : List (ℕ × Running) = arrival t.selecting t.accepted_socket t s.tracker in
    let queued : List (ℕ × Running) → Operator Running =
      λ new. record s.operator { queue = s.operator.queue ++ new } in
    (
      s'',
      ap (λ r. then_serve r (λ u. serve ts u)) e ∙ e',
      o'
          ∙ ap {A = Operator Running} (λ p. record p { queue = p.queue ++ arrivals ts s'.tracker })
              o
          ∙ ap {A = Option SchemaTracker}
              (λ st. record s.operator { queue = (s.operator.queue ++ now) ++ arrivals ts st }) tr
          ∙ ap {A = List (ℕ × Running)} (λ q. record s.operator { queue = q })
              (append_assoc s.operator.queue now (arrivals ts s.tracker)),
    )
