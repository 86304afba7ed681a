-- ===== src/Mavlink/GsNetwork/Routes.antt =====
-- GsNetwork.cpp over RoutingRules.cpp: an open port has its route, and a closed one leaves none.
use esp32cam.Base.{◌≡◌, ◌∙◌, refl, ap, true, some, none, ◌||◌}
use esp32cam.Routing.Order.{StrictOrder, pairs}
use esp32cam.Routing.Table.{IsSorted}
use esp32cam.Routing.Endpoint.{named, mavlink_ip_pack, mavlink_ip_pack_forwarded}
use esp32cam.Routing.Rules.{Rules, find, reduce, add_static, remove}
use esp32cam.Routing.Undo.{remove-add_static}
use esp32cam.Mavlink.GsNetwork.{
  Network, Sockets, Peer, World, same_error, no_error, already_open, not_found,
}
use esp32cam.Mavlink.GsNetwork.Handlers.{
  port_origin, call_open, call_close, process_open, process_close,
}

module _ {A S : Type 0} (o : StrictOrder (Peer A)) (api : Sockets A S) where
  opened_rules :
      (m : Network) (w : World A S) (t : Rules o)
      → w.rules ≡ some t
      → (let e = (call_open api m w.sockets).0 in
          (same_error no_error e || same_error already_open e) ≡ true)
      → (process_open o api m w).1.rules
        ≡ some
            (add_static o t
              (port_origin m)
              (named mavlink_ip_pack)
              (named mavlink_ip_pack_forwarded)).1
  unfolding process_open
  opened_rules m w t h e = rw (h, e) refl

  closed_rules :
      (m : Network) (w : World A S) (t : Rules o)
      → w.rules ≡ some t
      → (let e = (call_close api m w.sockets).0 in
          (same_error no_error e || same_error not_found e) ≡ true)
      → (process_close o api m w).1.rules
        ≡ some (remove o t (port_origin m) (named mavlink_ip_pack))
  unfolding process_close
  closed_rules m w t h e = rw (h, e) refl

  -- Where a sorted table has no rule for the port, and the socket calls succeed or find the port
  -- already open or closed, opening the port routes what comes in at it into MAVLink, and closing it
  -- again leaves the table exactly as it was.
  pub open_close_lem :
      (m : Network) (w : World A S) (t : Rules o)
      → w.rules ≡ some t
      → IsSorted (pairs o) t
      → find o t (port_origin m) (named mavlink_ip_pack) ≡ none
      → (let e = (call_open api m w.sockets).0 in
          (same_error no_error e || same_error already_open e) ≡ true)
      → (let e = (call_close api m (process_open o api m w).1.sockets).0 in
          (same_error no_error e || same_error not_found e) ≡ true)
      → (t' : Rules o) × ((process_open o api m w).1.rules ≡ some t')
        × (reduce o t' (port_origin m) (named mavlink_ip_pack)
            ≡ (true, named mavlink_ip_pack_forwarded))
        × ((process_close o api m (process_open o api m w).1).1.rules ≡ some t)
  open_close_lem m w t h s free opened closed =
      let t' : Rules o =
        (add_static o t (port_origin m) (named mavlink_ip_pack)
          (named mavlink_ip_pack_forwarded)).1 in
      let undo =
        remove-add_static o t (port_origin m) (named mavlink_ip_pack)
          (named mavlink_ip_pack_forwarded) s free in
      (
        t',
        opened_rules m w t h opened,
        undo.0,
        closed_rules m (process_open o api m w).1 t' (opened_rules m w t h opened) closed
            ∙ ap some undo.1,
      )
