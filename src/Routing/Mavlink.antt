-- ===== src/Routing/Mavlink.antt =====
-- components/wifi_uart_bridge/wifi_uart_bridge/MavlinkRouting.cpp: the rules it installs, and the list
-- of UDP clients it keeps. The UART, the port and the two build flags are parameters.
use esp32cam.Base.{ℕ, List, [], ◌∷◌, ◌++◌, Bool, true, false, ◌==◌, if◌then◌else◌, map}
use esp32cam.Routing.Order.{StrictOrder}
use esp32cam.Routing.Endpoint.{
  Endpoint, named, uart_endpoint, udp_port, udp_hook, udp_endpoint, tcp_endpoint, udp_remote,
  tcp_remote, tcp_port, mavlink, uart_mavlink_forwarded, udp_mavlink_forwarded,
  mavlink_ip_pack_forwarded, no_endpoint,
}
use esp32cam.Routing.Rules.{Rules, Change, adds, removes, run}

-- CONFIG_WIFI_UART_BRIDGE_UART_MAVLINK_PROCESS, CONFIG_WIFI_UART_BRIDGE_UDP_MAVLINK_PROCESS, and
-- `getMavlinkUartNum` and `getMavlinkUdpPort`, which return 0 and 8001.
pub record Config : Type 0 where
  pub uart_mavlink_process : Bool
  pub udp_mavlink_process : Bool
  pub uart : ℕ
  pub port : ℕ

-- `StaticRule`: from, to, reduction.
abbrev pub StaticRule : Type 0 → Type 0 → Type 0
StaticRule U T = Endpoint U T × (Endpoint U T × Endpoint U T)

module _ {U T : Type 0} where
  unfoldable pub uart_rules : Config → List (StaticRule U T)
  uart_rules c =
      if c.uart_mavlink_process
      then (uart_endpoint c.uart, (named mavlink, named uart_mavlink_forwarded))
        ∷ (named uart_mavlink_forwarded, (udp_port c.port, named no_endpoint))
        ∷ []
      else (uart_endpoint c.uart, (udp_port c.port, named no_endpoint)) ∷ []

  unfoldable pub udp_rules : Config → List (StaticRule U T)
  udp_rules c =
      if c.udp_mavlink_process
      then (udp_port c.port, (named mavlink, named udp_mavlink_forwarded))
        ∷ (named udp_mavlink_forwarded, (uart_endpoint c.uart, named no_endpoint))
        ∷ []
      else (udp_port c.port, (uart_endpoint c.uart, named no_endpoint)) ∷ []

  -- `kStaticRoutingRules`.
  unfoldable pub static_rules : Config → List (StaticRule U T)
  static_rules c =
      uart_rules c
      ++ udp_rules c
      ++ (udp_port c.port, (udp_hook c.port, named no_endpoint))
        ∷ (named mavlink_ip_pack_forwarded, (uart_endpoint c.uart, named no_endpoint))
        ∷ (named mavlink, (uart_endpoint c.uart, named no_endpoint))
        ∷ (named mavlink, (udp_port c.port, named no_endpoint))
        ∷ []

module _ {U T : Type 0} (o : StrictOrder (Endpoint U T)) where
  unfoldable pub add_all : List (StaticRule U T) → List (Change o)
  add_all [] = []
  add_all (r ∷ rs) = adds r.0 r.1.0 r.1.1 ∷ add_all rs

  unfoldable pub remove_all : List (StaticRule U T) → List (Change o)
  remove_all [] = []
  remove_all (r ∷ rs) = removes r.0 r.1.0 ∷ remove_all rs

  -- The rules part of `init`, and of the destructor.
  unfoldable pub init : Config → Rules o → Rules o
  init c rules = run o rules (add_all (static_rules c))

  unfoldable pub finish : Config → Rules o → Rules o
  finish c rules = run o rules (remove_all (static_rules c))

-- The receivers of `init` for UDP: the hook keeps the remotes that sent to the port, in the order of
-- their first datagrams; the notifier sends to each of them from the port, if there is a socket API.
module _ {U : Type 0} (eq : U → U → Bool) where
  unfoldable pub is_client : U → List U → Bool
  is_client u [] = false
  is_client u (v ∷ vs) = if eq v u then true else is_client u vs

  unfoldable pub udp_hook_receive : {T : Type 0} → Config → List U → Endpoint U T → List U
  udp_hook_receive c clients (udp_endpoint u p) =
      if p == c.port then (if is_client u clients then clients else clients ++ u ∷ []) else clients
  udp_hook_receive c clients (named n) = clients
  udp_hook_receive c clients (tcp_endpoint t p) = clients
  udp_hook_receive c clients (uart_endpoint n) = clients
  udp_hook_receive c clients (udp_remote u) = clients
  udp_hook_receive c clients (tcp_remote t) = clients
  udp_hook_receive c clients (tcp_port p) = clients
  udp_hook_receive c clients (udp_port p) = clients
  udp_hook_receive c clients (udp_hook p) = clients

  unfoldable pub udp_notify : Config → Bool → List U → List (U × ℕ)
  udp_notify c has_api clients = if has_api then map (λ u. (u, c.port)) clients else []
