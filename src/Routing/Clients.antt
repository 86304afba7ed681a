-- ===== src/Routing/Clients.antt =====
-- MavlinkRouting.cpp: the list of UDP clients that the MAVLink UDP hook keeps.
use esp32cam.Base.{◌≡◌, ◌↔◌, refl, List, [], ◌∷◌, ◌++◌, Bool, true, false, ◌&&◌, ◌||◌, ◌==◌, arith}
use esp32cam.Routing.Endpoint.{
  Endpoint, named, uart_endpoint, udp_port, udp_hook, udp_endpoint, tcp_endpoint, udp_remote,
  tcp_remote, tcp_port,
}
use esp32cam.Routing.Mavlink.{Config, is_client, udp_hook_receive}

module _ {U : Type 0} (eq : U → U → Bool) where
  abbrev pub IsOnce : List U → Type 0
  IsOnce [] = Unit {0}
  IsOnce (v ∷ vs) = (is_client eq v vs ≡ false) × IsOnce vs

  is_client_++ :
      (u v : U) (vs : List U) → is_client eq u (vs ++ v ∷ []) ≡ (is_client eq u vs || eq v u)
  unfolding is_client
  is_client_++ u v [] = ground arith
  is_client_++ u v (w ∷ vs) = ground (arith, is_client_++ u v vs)

IsOnce-append :
    {U : Type 0} (eq : U → U → Bool) (eq_iff : (u v : U) → (eq u v ≡ true) ↔ (u ≡ v)) (u : U)
    (vs : List U)
    → is_client eq u vs ≡ false
    → IsOnce eq vs
    → IsOnce eq (vs ++ u ∷ [])
unfolding is_client
IsOnce-append eq eq_iff u [] h q = (refl, tt)
IsOnce-append eq eq_iff u (v ∷ vs) h q =
    ground (arith, IsOnce-append eq eq_iff u vs, is_client_++ eq v u vs, eq_iff v u, eq_iff u v)

module _ {U T : Type 0} (eq : U → U → Bool) where
  -- The hook called for each message in turn.
  unfoldable pub receive_all : Config → List U → List (Endpoint U T) → List U
  receive_all c clients [] = clients
  receive_all c clients (e ∷ es) = receive_all c (udp_hook_receive eq c clients e) es

  unfoldable pub is_datagram : Config → U → Endpoint U T → Bool
  is_datagram c u (udp_endpoint v p) = p == c.port && eq v u
  is_datagram c u (named n) = false
  is_datagram c u (tcp_endpoint t p) = false
  is_datagram c u (uart_endpoint n) = false
  is_datagram c u (udp_remote v) = false
  is_datagram c u (tcp_remote t) = false
  is_datagram c u (tcp_port p) = false
  is_datagram c u (udp_port p) = false
  is_datagram c u (udp_hook p) = false

  -- Whether one of the messages is a datagram of the remote at the port.
  unfoldable pub heard : Config → U → List (Endpoint U T) → Bool
  heard c u [] = false
  heard c u (e ∷ es) = is_datagram c u e || heard c u es

module _ {U T : Type 0} (eq : U → U → Bool) (eq_iff : (u v : U) → (eq u v ≡ true) ↔ (u ≡ v)) where
  receive-IsOnce :
      (c : Config) (vs : List U) (e : Endpoint U T)
      → IsOnce eq vs
      → IsOnce eq (udp_hook_receive eq c vs e)
  unfolding udp_hook_receive
  receive-IsOnce c vs (udp_endpoint u p) q = ground (arith, IsOnce-append eq eq_iff u vs)
  receive-IsOnce c vs (named n) q = q
  receive-IsOnce c vs (tcp_endpoint t p) q = q
  receive-IsOnce c vs (uart_endpoint n) q = q
  receive-IsOnce c vs (udp_remote v) q = q
  receive-IsOnce c vs (tcp_remote t) q = q
  receive-IsOnce c vs (tcp_port p) q = q
  receive-IsOnce c vs (udp_port p) q = q
  receive-IsOnce c vs (udp_hook p) q = q

  is_client-receive :
      (c : Config) (u : U) (vs : List U) (e : Endpoint U T)
      → is_client eq u (udp_hook_receive eq c vs e) ≡ (is_client eq u vs || is_datagram eq c u e)
  unfolding udp_hook_receive is_datagram
  is_client-receive c u vs (udp_endpoint v p) = ground (arith, is_client_++ eq u v vs, eq_iff v u)
  is_client-receive c u vs (named n) = ground arith
  is_client-receive c u vs (tcp_endpoint t p) = ground arith
  is_client-receive c u vs (uart_endpoint n) = ground arith
  is_client-receive c u vs (udp_remote v) = ground arith
  is_client-receive c u vs (tcp_remote t) = ground arith
  is_client-receive c u vs (tcp_port p) = ground arith
  is_client-receive c u vs (udp_port p) = ground arith
  is_client-receive c u vs (udp_hook p) = ground arith

  receive_all-clients :
      (c : Config) (vs : List U) (es : List (Endpoint U T))
      → IsOnce eq vs
      → IsOnce eq (receive_all eq c vs es)
        × ((u : U)
            → is_client eq u (receive_all eq c vs es) ≡ (is_client eq u vs || heard eq c u es))
  unfolding receive_all heard
  receive_all-clients c vs [] q = (q, λ u. ground arith)
  receive_all-clients c vs (e ∷ es) q =
      let rest = receive_all-clients c (udp_hook_receive eq c vs e) es (receive-IsOnce c vs e q) in
      (rest.0, λ u. ground (arith, rest.1 u, is_client-receive c u vs e))

  -- After any messages, the list has each remote once, and exactly the remotes that sent a datagram
  -- to the MAVLink port.
  pub clients_lem :
      (c : Config) (es : List (Endpoint U T))
      → IsOnce eq (receive_all eq c [] es)
        × ((u : U) → is_client eq u (receive_all eq c [] es) ≡ heard eq c u es)
  unfolding is_client
  clients_lem c es = receive_all-clients c [] es tt
