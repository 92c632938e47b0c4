-- ===== src/Transport/WriteLoop.antt =====
-- `link_write_loop` of link/src/transport/link.rs: each packet is turned into bytes, and these go to
-- the loop of the QUIC connection. The channel of the packets is the list of those that arrive
-- before it is closed. Logging and metrics are left out.
pub mod EndToEnd
use quote_link_rs.Base.{
  ℕ, ◌-◌, ◌≡◌, ◌≢◌, ◌≤◌, ◌∙◌, refl, sym, ap, List, [], ◌∷◌, ◌++◌, append-nil, append_assoc, map,
  length, All, Option, none, some, Result, ok, err, arith,
}
use quote_link_rs.Channel.{Sender, send, send_open}
use quote_link_rs.Deku.{Deku, IsMsbFirst, DekuError}
use quote_link_rs.Packet.{Packet}
use quote_link_rs.Packet.Codec.{packet_to_bytes}
use quote_link_rs.Packet.Layout.{IsWellFormed, encoding, packet_to_bytes-encoding}

pub data WriteError : Type 0 where
  write_send_failed to_bytes_failed request_closed : WriteError

abbrev pub WriteStep : Type 0
WriteStep = Sender (List ℕ) × Option WriteError

unfoldable pub on_sent : Sender (List ℕ) → Option (Sender (List ℕ)) → WriteStep
on_sent tx none = (tx, some write_send_failed)
on_sent tx (some tx') = (tx', none)

unfoldable pub on_bytes : Sender (List ℕ) → Result DekuError (List ℕ) → WriteStep
unfolding on_sent
on_bytes tx (ok bytes) = on_sent tx (send tx bytes)
on_bytes tx (err e) = (tx, some to_bytes_failed)

module _ (d : Deku) where
  unfoldable pub write_once : Sender (List ℕ) → Packet → WriteStep
  unfolding on_bytes
  write_once tx packet = on_bytes tx (packet_to_bytes d packet)

  abbrev continue :
      (Sender (List ℕ) → Sender (List ℕ) × WriteError) → WriteStep → Sender (List ℕ) × WriteError
  continue again (tx, none) = again tx
  continue again (tx, some e) = (tx, e)

  unfoldable pub link_write_loop : List Packet → Sender (List ℕ) → Sender (List ℕ) × WriteError
  unfolding write_once
  link_write_loop [] tx = (tx, request_closed)
  link_write_loop (p ∷ ps) tx = continue (link_write_loop ps) (write_once tx p)

-- `link_write_loop` turns well formed packets, for which its receiver has room, into their bytes,
-- a chunk for each packet and in order, and ends when no packet is left.
pub link_write_loop-encoding :
    {d : Deku} (l : IsMsbFirst d) (ps : List Packet) (tx : Sender (List ℕ))
    → All IsWellFormed ps
    → length ps ≤ tx.room
    → link_write_loop d ps tx
      ≡ (record { room = tx.room - length ps; sent = tx.sent ++ map encoding ps }, request_closed)
unfolding link_write_loop
link_write_loop-encoding l [] tx w h = ground (arith, append-nil tx.sent)
link_write_loop-encoding l (p ∷ ps) tx w h =
    rw (packet_to_bytes-encoding l p w.0, send_open tx (encoding p) (omega arith))
      (link_write_loop-encoding l ps _ w.1 (omega arith)
        ∙ ground (arith, append_assoc tx.sent (encoding p ∷ []) (map encoding ps)))
