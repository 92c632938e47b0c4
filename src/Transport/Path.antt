-- ===== src/Transport/Path.antt =====
-- The way of packets from `link_write_loop` of one peer, through the `quic_process_loop` of both, to
-- `link_read_loop` of the other (link/src/transport/link.rs).
mod Tests
use quote_link_rs.Base.{
  ℕ, ◌≤◌, ◌≡◌, ◌∙◌, refl, sym, ap, ap₂, subst, List, [], ◌∷◌, ◌++◌, append-nil, append_assoc,
  concat, map, length, All, All-append, All-append_parts, none, isize_max,
}
use quote_link_rs.Channel.{Sender}
use quote_link_rs.Deku.{Deku, IsMsbFirst, IsByte}
use quote_link_rs.Packet.{Packet}
use quote_link_rs.Packet.Layout.{IsWellFormed, encoding, encoding-IsByte}
use quote_link_rs.Packet.Front.{encodings, encodings_prefix}
use quote_link_rs.SimpleBuf
use quote_link_rs.Transport.ReadLoop.{link_read_loop}
use quote_link_rs.Transport.ReadLoop.Stop.{link_read_loop-Delivered}
use quote_link_rs.Transport.WriteLoop.{WriteError, link_write_loop, link_write_loop-encoding}
use quote_link_rs.Transport.WriteLoop.EndToEnd.{concat-map-encoding}
use quote_link_rs.Transport.ProcessLoop.{Driver, LoopEvent, Looped, LoopStep, quic_process_loop}
use quote_link_rs.Transport.ProcessLoop.Order.{IsDriver, IsGood, outgoing}
use quote_link_rs.Transport.ProcessLoop.Carried.{
  chunks, Selected, nothing, kept, dropped, Selected-append, Carried, quic_process_loop-Carried,
}

regroup {ℓ} :
    {A : Type ℓ} (xs ys zs ws : List A) → ((xs ++ ys) ++ zs) ++ ws ≡ xs ++ (ys ++ (zs ++ ws))
regroup xs ys zs ws = simp append_assoc

drop_rest {ℓ} : {A : Type ℓ} (xs : List A) → Selected xs []
drop_rest [] = nothing
drop_rest (x ∷ xs) = dropped (drop_rest xs)

-- A choice among the images is the image of a choice.
Selected-map {ℓ κ} :
    {A : Type ℓ} {B : Type κ} (f : A → B) (xs : List A) {zs : List B} {ys : List B}
    → Selected zs ys
    → zs ≡ map f xs
    → (ws : List A) × Selected xs ws × (ys ≡ map f ws)
Selected-map f [] nothing e = ([], nothing, refl)
Selected-map f (x ∷ xs) nothing e = cc
Selected-map f [] (kept choice) e = cc
Selected-map f (x ∷ xs) (kept choice) e =
    let (ws, chosen, same) = Selected-map f xs choice (cc) in
    (x ∷ ws, kept chosen, ap₂ ◌∷◌ (cc) same)
Selected-map f [] (dropped choice) e = cc
Selected-map f (x ∷ xs) (dropped choice) e =
    let (ws, chosen, same) = Selected-map f xs choice (cc) in (ws, dropped chosen, same)

Selected-All {ℓ κ} :
    {A : Type ℓ} (P : A → Type κ) {xs ys : List A} → Selected xs ys → All P xs → All P ys
Selected-All P nothing h = tt
Selected-All P (kept choice) h = (h.0, Selected-All P choice h.1)
Selected-All P (dropped choice) h = Selected-All P choice h.1

encodings-IsByte : (ps : List Packet) → All IsWellFormed ps → All IsByte (encodings ps)
encodings-IsByte [] w = tt
encodings-IsByte (p ∷ ps) w =
    All-append IsByte (encoding p) (encodings ps) (encoding-IsByte p w.0) (encodings-IsByte ps w.1)

All-of_concat {ℓ κ} :
    {A : Type ℓ} (P : A → Type κ) (xss : List (List A)) → All P (concat xss) → All (All P) xss
All-of_concat P [] h = tt
All-of_concat P (xs ∷ xss) h =
    let (first, rest) = All-append_parts P xs (concat xss) h in (first, All-of_concat P xss rest)

module _ {d : Deku} (l : IsMsbFirst d) {near far : Driver} (n : IsDriver near)
    (f : IsDriver far) where
  -- The bytes of the near connection, sent or waiting, are those of packets that were chosen.
  outgoing-encodings :
      (ps : List Packet) (out : Sender (List ℕ)) (events : List LoopEvent) (s s' : Looped near)
      (later : List (List ℕ))
      → All IsWellFormed ps
      → out.sent ≡ []
      → length ps ≤ out.room
      → (link_write_loop d ps out).0.sent ≡ chunks events ++ later
      → IsGood n [] s
      → outgoing n [] s ≡ []
      → quic_process_loop near events s ≡ (s', none)
      → (qs : List Packet) × Selected ps qs × (outgoing n [] s' ≡ encodings qs)
  outgoing-encodings ps out events s s' later w e room wrote good fresh run =
      let (good', taken, choice, bytes) =
        subst (Carried n [] events s) run (quic_process_loop-Carried n [] events s good) in
      let all_chunks : chunks events ++ later ≡ map encoding ps =
        sym wrote
        ∙ ap (λ (o : Sender (List ℕ) × WriteError). o.0.sent)
            (link_write_loop-encoding l ps out w room)
        ∙ ap (λ xss. xss ++ map encoding ps) e in
      let (qs, chosen, same) =
        Selected-map encoding ps (Selected-append choice (drop_rest later)) all_chunks in
      (
        qs,
        chosen,
        bytes
            ∙ ap (λ xs. xs ++ concat taken) fresh
            ∙ ap concat (sym (append-nil taken) ∙ same)
            ∙ concat-map-encoding qs,
      )

  -- The chunks that the far loop handed on are of bytes, and spell a part from the front of the
  -- packets' bytes.
  heard-IsByte :
      (qs : List Packet) (heard : List (List ℕ)) (more rest : List ℕ)
      → All IsWellFormed qs
      → (concat heard ++ more) ++ rest ≡ encodings qs
      → All (All IsByte) heard
  heard-IsByte qs heard more rest w e =
      All-of_concat IsByte heard
        (All-append_parts IsByte (concat heard) more
          (All-append_parts IsByte (concat heard ++ more) rest
            (subst (All IsByte) (sym e) (encodings-IsByte qs w))).0).0

  -- Packets on their way. At the near end well formed packets go to `link_write_loop`, and the
  -- chunks that it writes, as far as they are taken, to `quic_process_loop`, which has not sent anything
  -- before. The bytes that the far end's streams gave are the first of those that the near
  -- connection took, which is what QUIC promises for one stream. Both loops still run, and all that
  -- the far one handed on goes to `link_read_loop`. Then the packets that come out there are the
  -- first of some of the packets that were put in, in the same order: none is made up, altered,
  -- repeated or overtaken, whatever the two loops did meanwhile.
  pub link_read_loop-Selected :
      (ps : List Packet) (out : Sender (List ℕ)) (events far_events : List LoopEvent)
      (s s' : Looped near) (far_s far_s' : Looped far) (later : List (List ℕ)) (more : List ℕ)
      (size : ℕ) (tx : Sender Packet)
      → All IsWellFormed ps
      → out.sent ≡ []
      → length ps ≤ out.room
      → (link_write_loop d ps out).0.sent ≡ chunks events ++ later
      → IsGood n [] s
      → outgoing n [] s ≡ []
      → quic_process_loop near events s ≡ (s', none)
      → IsGood f [] far_s
      → quic_process_loop far far_events far_s ≡ (far_s', none)
      → s'.process.written ≡ concat far_s'.heard ++ more
      → size ≤ isize_max
      → tx.sent ≡ []
      → (qs rs : List Packet) × Selected ps qs
        × (qs ≡ (link_read_loop d size tx far_s'.quic_data_recv_tx.sent).0.response_tx.sent ++ rs)
  link_read_loop-Selected ps out events far_events s s' far_s far_s' later more size tx w e room
        wrote good fresh run far_good far_run carried small e' =
      let (qs, chosen, bytes) =
        outgoing-encodings ps out events s s' later w e room wrote good fresh run in
      let wq : All IsWellFormed qs = Selected-All IsWellFormed chosen w in
      let spelt : (concat far_s'.heard ++ more) ++ waiting s' ≡ encodings qs =
        ap (λ xs. xs ++ waiting s') (sym carried) ∙ bytes in
      let far_good' : IsGood f [] far_s' =
        (subst (Carried f [] far_events far_s) far_run
          (quic_process_loop-Carried f [] far_events far_s far_good)).0 in
      let (rest, (stream, wr)) =
        link_read_loop-Delivered l size tx far_s'.quic_data_recv_tx.sent small e' (
          subst (All (All IsByte)) (sym far_good'.handed_on)
            (heard-IsByte qs far_s'.heard more (waiting s') wq spelt)) in
      let (rs, front, _) =
        encodings_prefix l
          (link_read_loop d size tx far_s'.quic_data_recv_tx.sent).0.response_tx.sent qs
          (rest ++ (more ++ waiting s')) wr wq
          (sym spelt
            ∙ ap (λ xs. (xs ++ more) ++ waiting s') (ap concat (sym far_good'.handed_on) ∙ stream)
            ∙ regroup
                (encodings
                  (link_read_loop d size tx far_s'.quic_data_recv_tx.sent).0.response_tx.sent)
                rest more (waiting s')) in
      (qs, rs, chosen, front)
    where
      waiting : Looped near → List ℕ
      waiting q = SimpleBuf.occupied_slice q.process.stream_send_buffer
