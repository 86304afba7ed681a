-- ===== src/Routing/Encoded.antt =====
-- An order of the endpoints of Routing/Endpoint whose remotes are an address and a port, by an
-- encoding as numbers; for runs at concrete endpoints.
use esp32cam.Base.{ℕ, ◌≡◌, ◌∙◌, sym, ap, refl, ◌==◌, arith, ltb, if◌then◌else◌}
use esp32cam.Routing.Order.{StrictOrder, pairs}
use esp32cam.Routing.Endpoint.{
  Endpoint, NamedEndpoint, named, tcp_endpoint, udp_endpoint, uart_endpoint, udp_remote, tcp_remote,
  tcp_port, udp_port, udp_hook, mavlink, mavlink_ip_pack, uart_mavlink_forwarded,
  udp_mavlink_forwarded, mavlink_ip_pack_forwarded, no_endpoint,
}

unfoldable pub numbers : StrictOrder ℕ
numbers = record {
  lt = ltb;
  eq = λ a b. a == b;
  eq_iff = λ a b. ground arith;
  irrefl = λ a. ground arith;
  trans = λ a b c h k. ground arith;
  total = λ a b h k. ground arith;
}

-- The order that an injective encoding gives.
unfoldable pub along :
    {A B : Type 0} (f : A → B) (g : B → A) → ((a : A) → g (f a) ≡ a) → StrictOrder B → StrictOrder A
along f g r o = record {
  lt = λ a b. o.lt (f a) (f b);
  eq = λ a b. o.eq (f a) (f b);
  eq_iff = λ a b. ground (arith, o.eq_iff (f a) (f b), r a, r b);
  irrefl = λ a. o.irrefl (f a);
  trans = λ a b c. o.trans (f a) (f b) (f c);
  total = λ a b h k. sym (r a) ∙ ap g (o.total (f a) (f b) h k) ∙ r b;
}

abbrev pub Address : Type 0
Address = Endpoint (ℕ × ℕ) (ℕ × ℕ)

abbrev pub Code : Type 0
Code = (ℕ × ℕ) × (ℕ × ℕ)

unfoldable pub encode : Address → Code
encode (named mavlink) = ((0, 0), (0, 0))
encode (named mavlink_ip_pack) = ((0, 1), (0, 0))
encode (named uart_mavlink_forwarded) = ((0, 2), (0, 0))
encode (named udp_mavlink_forwarded) = ((0, 3), (0, 0))
encode (named mavlink_ip_pack_forwarded) = ((0, 4), (0, 0))
encode (named no_endpoint) = ((0, 5), (0, 0))
encode (tcp_endpoint (t, q) p) = ((1, t), (q, p))
encode (udp_endpoint (u, q) p) = ((2, u), (q, p))
encode (uart_endpoint n) = ((3, n), (0, 0))
encode (udp_remote (u, q)) = ((4, u), (q, 0))
encode (tcp_remote (t, q)) = ((5, t), (q, 0))
encode (tcp_port p) = ((6, p), (0, 0))
encode (udp_port p) = ((7, p), (0, 0))
encode (udp_hook p) = ((8, p), (0, 0))

unfoldable pub named_of : ℕ → NamedEndpoint
named_of n =
    if n == 0
    then mavlink
    else if n == 1
    then mavlink_ip_pack
    else if n == 2
    then uart_mavlink_forwarded
    else if n == 3
    then udp_mavlink_forwarded
    else if n == 4
    then mavlink_ip_pack_forwarded
    else no_endpoint

unfoldable pub decode : Code → Address
decode ((k, a), (b, c)) =
    if k == 0
    then named (named_of a)
    else if k == 1
    then tcp_endpoint (a, b) c
    else if k == 2
    then udp_endpoint (a, b) c
    else if k == 3
    then uart_endpoint a
    else if k == 4
    then udp_remote (a, b)
    else if k == 5
    then tcp_remote (a, b)
    else if k == 6
    then tcp_port a
    else if k == 7
    then udp_port a
    else udp_hook a

pub decode-encode : (a : Address) → decode (encode a) ≡ a
unfolding decode encode named_of
decode-encode (named mavlink) = refl
decode-encode (named mavlink_ip_pack) = refl
decode-encode (named uart_mavlink_forwarded) = refl
decode-encode (named udp_mavlink_forwarded) = refl
decode-encode (named mavlink_ip_pack_forwarded) = refl
decode-encode (named no_endpoint) = refl
decode-encode (tcp_endpoint (t, q) p) = refl
decode-encode (udp_endpoint (u, q) p) = refl
decode-encode (uart_endpoint n) = refl
decode-encode (udp_remote (u, q)) = refl
decode-encode (tcp_remote (t, q)) = refl
decode-encode (tcp_port p) = refl
decode-encode (udp_port p) = refl
decode-encode (udp_hook p) = refl

unfoldable pub addresses : StrictOrder Address
addresses = along encode decode decode-encode (pairs (pairs numbers))
