-- ===== src/Routing/Endpoint.antt =====
-- components/wifi_uart_bridge/wifi_uart_bridge/EndpointVariant.hpp, EndpointVariant.cpp: who sends and
-- who receives. The remote sides of UDP and TCP are asio's, the order is the variant library's.
use esp32cam.Base.{ℕ, List, [], ◌∷◌}

-- `NamedEndpoint`.
pub data NamedEndpoint : Type 0 where
  mavlink : NamedEndpoint
  mavlink_ip_pack : NamedEndpoint
  uart_mavlink_forwarded : NamedEndpoint
  udp_mavlink_forwarded : NamedEndpoint
  mavlink_ip_pack_forwarded : NamedEndpoint
  no_endpoint : NamedEndpoint

-- `EndpointVariant`, in the order of its alternatives; the markers of the tuples are the constructors.
pub data Endpoint (U T : Type 0) : Type 0 where
  named : NamedEndpoint → Endpoint U T
  tcp_endpoint : T → ℕ → Endpoint U T
  udp_endpoint : U → ℕ → Endpoint U T
  uart_endpoint : ℕ → Endpoint U T
  udp_remote : U → Endpoint U T
  tcp_remote : T → Endpoint U T
  tcp_port : ℕ → Endpoint U T
  udp_port : ℕ → Endpoint U T
  udp_hook : ℕ → Endpoint U T

-- `asAlternative`: a remote at a local port is also the remote, and also the port.
unfoldable pub as_alternative : {U T : Type 0} → Endpoint U T → List (Endpoint U T)
as_alternative (udp_endpoint u p) = udp_remote u ∷ udp_port p ∷ []
as_alternative (tcp_endpoint t p) = tcp_remote t ∷ tcp_port p ∷ []
as_alternative (named n) = []
as_alternative (uart_endpoint n) = []
as_alternative (udp_remote u) = []
as_alternative (tcp_remote t) = []
as_alternative (tcp_port p) = []
as_alternative (udp_port p) = []
as_alternative (udp_hook p) = []
