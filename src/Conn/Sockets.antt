-- ===== src/Conn/Sockets.antt =====
-- lib/conn/include/conn/conn.h, lib/conn/client-conn.cpp and lib/conn/server-conn.cpp: how the sockets
-- of a session come about. What the system answers is an argument.
use pg_fort.Base.{ℕ, Bool, true, false, ◌&&◌, List, [], ◌∷◌, Option, none, some}

-- `ClientConn`, with whether its `fcntl` has made it non-blocking.
pub record ClientConn : Type 0 where
  pub client_socket : ℕ
  pub client_nonblocking : Bool

unfoldable pub client_conn : ℕ → Bool → ClientConn
client_conn socket fcntl = record { client_socket = socket; client_nonblocking = fcntl }

-- What the system answers to the constructor of a `ServerConn`: the socket, the addresses, with
-- whether the connection to each would work, or none when there is no answer, and `fcntl`.
pub record Dialing : Type 0 where
  pub new_socket : ℕ
  pub addresses : Option (List Bool)
  pub fcntl_works : Bool

pub record ServerConn : Type 0 where
  pub server_socket : ℕ
  pub connected : Bool
  pub server_nonblocking : Bool

-- The loop over the addresses ends at the first that works. `res` starts as that of `getaddrinfo`.
unfoldable pub connect_to : Bool → List Bool → Bool
connect_to res [] = res
connect_to res (true ∷ rest) = true
connect_to res (false ∷ rest) = connect_to false rest

abbrev pub on_addresses : Dialing → Option (List Bool) → Option ServerConn
on_addresses w none = none
on_addresses w (some found) =
    let res = connect_to true found in
    some (record {
      server_socket = w.new_socket;
      connected = res;
      server_nonblocking = res && w.fcntl_works;
    })

-- The constructor, which `CreateServerConn` calls. Without an answer of `getaddrinfo` the list of
-- addresses is read all the same, uninitialised: `none`.
unfoldable pub server_conn : Dialing → Option ServerConn
unfolding connect_to
server_conn w = on_addresses w w.addresses
