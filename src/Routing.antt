-- ===== src/Routing.antt =====
-- components/wifi_uart_bridge: which receiver gets a message, and as whose.
pub mod Order
pub mod Table
pub mod Endpoint
pub mod Encoded
pub mod Rules
pub mod Map
pub mod Refine
pub mod Mavlink
pub mod Undo
pub mod Notify
pub mod Fuel
pub mod Ends
pub mod StaticEnds
pub mod Static
pub mod Shared
pub mod Clients
mod Tests
