-- ===== src/Mavlink/GsNetwork/Chunks.antt =====
-- The inner loop of components/wifi_uart_bridge/wifi_uart_bridge/Receiver.cpp's `notifyAsImpl` over
-- `onReceive` of GsNetwork.cpp: what comes in at a socket is cut into messages.
use esp32cam.Base.{
  ℕ, zero, suc, ◌+◌, ◌-◌, ◌≡◌, ◌≤◌, ◌<◌, ◌∙◌, ap₂, refl, List, [], ◌∷◌, ◌++◌, true, false, leb,
  leb→le, if◌then◌else◌, Option, some, none, ◌>>=◌, length, drop, min, arith, Bool-cases, inl, inr,
  length-drop, take_of_length-le, take-append-drop, append-nil,
}
use esp32cam.Container.Slice.{Slice, slice, slice_lem}
use esp32cam.Routing.Notify.{goes_on}
use esp32cam.Routing.Endpoint.{tcp_endpoint}
use esp32cam.Mavlink.GsNetwork.{Addresses, Network, Peer, Remote, process_received}
use esp32cam.Mavlink.GsNetwork.Pack.{
  on_receive, carried, init_network, address_length, init_network_bounds, init_network_round_trip,
}

module _ {A : Type 0} (asio : Addresses A) (size : ℕ) where
  -- The loop, on fuel: the messages that are sent to the autopilot.
  unfoldable pub chunks : ℕ → Peer A → Slice → Slice → Option (List Network)
  chunks zero sender whole s = none
  chunks (suc fuel) sender whole s =
      let (m, n) = on_receive asio size sender s.bytes in
      slice n s >>= λ left.
      let rest = chunks fuel sender whole left in
      if goes_on whole left then (rest >>= λ ms. some (m ∷ ms)) else some (m ∷ [])

  -- What the messages carry, in order.
  abbrev pub joined : List Network → List ℕ
  joined [] = []
  joined (m ∷ ms) = carried asio size m ++ joined ms

  -- From a TCP connection over IPv4, with a payload field of 16 to 255 bytes and more fuel than
  -- bytes, the loop ends, and what the messages carry is the buffer, complete and in order.
  pub chunks_lem :
      (fuel : ℕ) (remote : Remote A) (port : ℕ) (whole s : Slice)
      → 16 ≤ size
      → size ≤ 255
      → asio.is_v6 remote.0 ≡ false
      → length s.bytes < fuel
      → whole.start ≤ s.start
      → (ms : List Network) × ((chunks fuel (tcp_endpoint remote port) whole s ≡ some ms)
          × (joined ms ≡ s.bytes))
  unfolding chunks on_receive
  chunks_lem zero remote port whole s lo hi four more le = absurd (omega arith)
  chunks_lem (suc fuel) remote port whole s lo hi four more le =
      let got = init_network asio size process_received true remote port s.bytes in
      let bounds = init_network_bounds asio size process_received true remote port s.bytes lo hi in
      let four_bytes : address_length asio size remote.0 ≡ 4 = rw four refl in
      let n_lem : got.1 ≡ min (size - 4) (length s.bytes) = ground (arith, four_bytes, bounds) in
      let back =
        init_network_round_trip asio size process_received true remote port s.bytes lo hi four in
      let cut = slice_lem got.1 s (ground (arith, n_lem)) in
      let left : Slice = record { start = s.start + got.1; bytes = drop got.1 s.bytes } in
      let len : length left.bytes ≡ length s.bytes - got.1 = length-drop got.1 s.bytes in
      elim (Bool-cases (leb (length s.bytes) got.1)) [
        | inl all ↦
            let fits = leb→le (length s.bytes) got.1 all in
            (
              got.0 ∷ [],
              (
                ground (arith, cut.1, len),
                append-nil _ ∙ back.1 ∙ take_of_length-le got.1 s.bytes fits,
              ),
            )
        | inr some_left ↦
            let (ms, (e, j)) =
              chunks_lem fuel remote port whole left lo hi four (ground (arith, len, n_lem))
                (omega arith) in
            (
              got.0 ∷ ms,
              (
                ground (arith, cut.1, len, n_lem, e),
                ap₂ (λ x y. x ++ y) back.1 j ∙ take-append-drop got.1 s.bytes,
              ),
            )
      ]
