-- ===== src/Routing/Tests.antt =====
-- The routing at concrete endpoints: a remote is an address and a port, 8001 is the MAVLink port.
use esp32cam.Base.{
  some, none, false, ℕ, ◌≡◌, refl, List, [], ◌∷◌, true, ◌==◌, arith, inl, inr, ◌+◌, length,
}
use esp32cam.Routing.Order.{pairs}
use esp32cam.Routing.Encoded.{addresses, along, encode, numbers}
use esp32cam.Routing.Notify.{Receiver, notify, visits}
use esp32cam.Routing.StaticEnds.{static_notify_lem}
use esp32cam.Routing.Table.{IsSorted, lookup}
use esp32cam.Routing.Endpoint.{
  Endpoint, named, udp_endpoint, udp_remote, udp_port, mavlink, udp_mavlink_forwarded, no_endpoint,
}
use esp32cam.Routing.Rules.{Rules, remove, Change, adds, removes, run, reduce}
use esp32cam.Routing.Map.{nothing_routed, run_map, reduce_map}
use esp32cam.Routing.Refine.{run-reduces}
use esp32cam.Routing.Mavlink.{Config, init, is_client}
use esp32cam.Routing.Shared.{remove_shared}
use esp32cam.Routing.Clients.{receive_all, heard, IsOnce, clients_lem}

abbrev config : Config
config = record { uart_mavlink_process = true; udp_mavlink_process = true; uart = 0; port = 8001 }

abbrev changes : List (Change addresses)
changes =
    adds (udp_port 8001) (named mavlink) (named udp_mavlink_forwarded)
    ∷ adds (udp_endpoint (9, 5000) 8001) (named mavlink) (named no_endpoint)
    ∷ removes (udp_endpoint (7, 5000) 8001) (named mavlink)
    ∷ []

run-reduces_example :
    IsSorted (pairs addresses) (run addresses [] changes)
    × (reduce addresses (run addresses [] changes) (udp_endpoint (9, 5000) 8001) (named mavlink)
        ≡ reduce_map addresses
            (run_map addresses (nothing_routed addresses) changes)
            (udp_endpoint (9, 5000) 8001)
            (named mavlink))
run-reduces_example = run-reduces addresses changes (udp_endpoint (9, 5000) 8001) (named mavlink)

abbrev messages : List (Endpoint ℕ ℕ)
messages = udp_endpoint 9 8001 ∷ udp_endpoint 9 8001 ∷ udp_endpoint 8 80 ∷ []

clients_example :
    IsOnce (λ a b. a == b) (receive_all (λ a b. a == b) config [] messages)
    × ((u : ℕ)
        → is_client (λ a b. a == b) u (receive_all (λ a b. a == b) config [] messages)
          ≡ heard (λ a b. a == b) config u messages)
clients_example = clients_lem (λ a b. a == b) (λ a b. ground arith) config messages

abbrev port_rules : Rules addresses
port_rules = ((udp_port 8001, named mavlink), named udp_mavlink_forwarded) ∷ []

shared_port_lem :
    lookup (pairs addresses) (udp_port 8001, named mavlink) port_rules
    ≡ some (named udp_mavlink_forwarded)
unfolding lookup addresses along encode numbers
shared_port_lem = refl

own_rule_lem :
    lookup (pairs addresses) (udp_endpoint (9, 5000) 8001, named mavlink) port_rules ≡ none
unfolding lookup addresses along encode numbers
own_rule_lem = refl

remote_rule_lem : lookup (pairs addresses) (udp_remote (9, 5000), named mavlink) port_rules ≡ none
unfolding lookup addresses along encode numbers
remote_rule_lem = refl

remove_shared_example :
    (reduce addresses port_rules (udp_port 8001) (named mavlink)
      ≡ (true, named udp_mavlink_forwarded))
    × (reduce addresses
          (remove addresses port_rules (udp_endpoint (9, 5000) 8001) (named mavlink))
          (udp_port 8001)
          (named mavlink)
        ≡ (false, udp_port 8001))
remove_shared_example =
    remove_shared addresses port_rules (9, 5000) 8001 (named mavlink) (named udp_mavlink_forwarded)
      (tt, tt) own_rule_lem remote_rule_lem shared_port_lem

-- A receiver that takes the whole buffer, and counts the calls.
abbrev taker : Receiver (ℕ × ℕ) (ℕ × ℕ) Unit ℕ
taker = record {
  identity = named mavlink;
  on_receive = λ e s c w. some (
    record { left = record { start = s.start + length s.bytes; bytes = [] }; forwarded = none },
    w + 1,
  );
}

static_notify_example :
    (n : ℕ) × (w' : ℕ) × (notify addresses
        (λ v. init addresses config [])
        (taker ∷ [])
        n
        (visits (taker ∷ []) (record {
          sender = udp_endpoint (9, 5000) 8001;
          buffer = record { start = 0; bytes = 1 ∷ 2 ∷ [] };
          respond = tt;
        }))
        0
      ≡ some w')
static_notify_example =
    static_notify_lem addresses config (taker ∷ [])
      (record {
        sender = udp_endpoint (9, 5000) 8001;
        buffer = record { start = 0; bytes = 1 ∷ 2 ∷ [] };
        respond = tt;
      })
      0 (inr (λ e s c w. (_, _, refl, inl refl)), tt)
