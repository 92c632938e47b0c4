-- ===== src/Transport/ProcessLoop/Carried.antt =====
-- What `quic_process_loop` of link/src/transport/link.rs carries over a run.
use quote_link_rs.Base.{
  ℕ, suc, ◌≡◌, ◌∙◌, inl, inr, refl, sym, ap, subst, List, [], ◌∷◌, ◌++◌, append-nil, append_assoc,
  Bool-cases, none, some, length, concat, concat-append, arith,
}
use quote_link_rs.SimpleBuf
use quote_link_rs.Transport.SendLoop.{ProcessStep, flush, send_once}
use quote_link_rs.Transport.SendLoop.Order.{Flushed, flush-Flushed}
use quote_link_rs.Transport.SendLoop.Once.{IsOutside-IsExit, Ordered}
use quote_link_rs.Transport.SendLoop.Chunk.{send_once-Ordered}
use quote_link_rs.Transport.ProcessLoop.{
  Driver, LoopEvent, timeout_signal, udp_recv_closed, quic_send_closed, udp_data, chunk, ticked,
  udp_data_closed, chunks_closed, Looped, LoopStep, then_next, with_process, on_timeout,
  on_udp_data, expire, check_alive, on_tick, loop_step, quic_process_loop,
}
use quote_link_rs.Transport.ProcessLoop.Order.{
  IsDriver, IsLoopExit, IsGood, outgoing, Keeps, then_next-Keeps, Fine, with_process-Keeps,
  on_timeout-Keeps,
}
use quote_link_rs.Transport.ProcessLoop.Reads.{on_udp_data-Keeps}

-- The chunks among the events.
abbrev pub chunks : List LoopEvent → List (List ℕ)
chunks [] = []
chunks (chunk b ∷ events) = b ∷ chunks events
chunks (timeout_signal ∷ events) = chunks events
chunks (udp_recv_closed ∷ events) = chunks events
chunks (quic_send_closed ∷ events) = chunks events
chunks (udp_data b ∷ events) = chunks events
chunks (ticked ∷ events) = chunks events

-- A choice among the elements of a list, in order.
pub data Selected {ℓ} {A : Type ℓ} : List A → List A → Type ℓ where
  nothing : Selected [] []
  kept : {x : A} {xs ys : List A} → Selected xs ys → Selected (x ∷ xs) (x ∷ ys)
  dropped : {x : A} {xs ys : List A} → Selected xs ys → Selected (x ∷ xs) ys

pub Selected-append {ℓ} :
    {A : Type ℓ} {xs ys xs' ys' : List A}
    → Selected xs ys
    → Selected xs' ys'
    → Selected (xs ++ xs') (ys ++ ys')
Selected-append nothing more = more
Selected-append (kept choice) more = kept (Selected-append choice more)
Selected-append (dropped choice) more = dropped (Selected-append choice more)

chunks_cons :
    (event : LoopEvent) (events : List LoopEvent)
    → chunks (event ∷ events) ≡ chunks (event ∷ []) ++ chunks events
chunks_cons (chunk b) events = refl
chunks_cons timeout_signal events = refl
chunks_cons udp_recv_closed events = refl
chunks_cons quic_send_closed events = refl
chunks_cons (udp_data b) events = refl
chunks_cons ticked events = refl

module _ {d : Driver} (law : IsDriver d) (before : List (List ℕ)) where
  Flushed-Fine :
      (all : List ℕ) (r : ProcessStep d.conn) → Flushed law.is_stream all r → Fine law before all r
  unfolding Fine
  Flushed-Fine all (p, none) (valid, same, rest) = (valid, same)
  Flushed-Fine all (p, some e) h = IsOutside-IsExit e h

  expire-Keeps : (l : Looped d) → IsGood law before l → Keeps law before l (expire d l)
  expire-Keeps l good = elim (Bool-cases (d.has_expired l.process.conn)) [
    | inl now ↦ rw now (on_timeout-Keeps law before l good)
    | inr not_yet ↦ rw not_yet (good, refl)
  ]

  check_alive-Keeps : (l : Looped d) → IsGood law before l → Keeps law before l (check_alive d l)
  check_alive-Keeps l good = elim (Bool-cases (d.is_timed_out l.process.conn)) [
    | inl late ↦ rw late tt
    | inr in_time ↦ elim (Bool-cases (d.is_closed l.process.conn)) [
      | inl gone ↦ rw (in_time, gone) tt
      | inr alive ↦ rw (in_time, alive) (good, refl)
    ]
  ]

  on_tick-Keeps : (l : Looped d) → IsGood law before l → Keeps law before l (on_tick d l)
  unfolding on_tick
  on_tick-Keeps l good =
      then_next-Keeps law before l (check_alive d) (then_next d (expire d) flushed)
        (then_next-Keeps law before l (expire d) flushed
          (with_process-Keeps law before l (flush d.conn fuel l.process) good (
            Flushed-Fine (outgoing law before l) (flush d.conn fuel l.process)
              (flush-Flushed law.is_stream fuel l.process good.valid (omega arith))))
          expire-Keeps)
        check_alive-Keeps
    where
      fuel : ℕ
      fuel = suc (length (SimpleBuf.occupied_slice l.process.stream_send_buffer))

      flushed : LoopStep d
      flushed = with_process d l (flush d.conn fuel l.process)

  -- After events: the loop goes on, and the chunks that were kept stand, whole and in order, behind
  -- what was there.
  abbrev pub Carried : List LoopEvent → Looped d → LoopStep d → Type 0
  Carried events l (l', none) =
      IsGood law before l'
      × (taken : List (List ℕ)) × Selected (chunks events) taken
      × (outgoing law before l' ≡ outgoing law before l ++ concat taken)
  Carried events l (l', some e) = IsLoopExit e

  -- A step that takes no chunk, or one.
  Stepped : List (List ℕ) → Looped d → LoopStep d → Type 0
  Stepped bs l (l', none) =
      IsGood law before l'
      × (taken : List (List ℕ)) × Selected bs taken
      × (outgoing law before l' ≡ outgoing law before l ++ concat taken)
  Stepped bs l (l', some e) = IsLoopExit e

  Keeps-Stepped : (l : Looped d) (r : LoopStep d) → Keeps law before l r → Stepped [] l r
  unfolding Stepped
  Keeps-Stepped l (l', none) (good, same) =
      (good, [], nothing, same ∙ sym (append-nil (outgoing law before l)))
  Keeps-Stepped l (l', some e) h = h

  Ordered-Stepped :
      (b : List ℕ) (l : Looped d) (r : ProcessStep d.conn)
      → IsGood law before l
      → Ordered law.is_stream l.process b r
      → Stepped (b ∷ []) l (with_process d l r)
  unfolding Stepped
  Ordered-Stepped b l (p, none) good (valid, inl more) = (
    record { valid = valid; handed_on = good.handed_on },
    b ∷ [],
    kept nothing,
    more ∙ ap (λ xs. outgoing law before l ++ xs) (sym (append-nil b)),
  )
  Ordered-Stepped b l (p, none) good (valid, inr (same, full)) = (
    record { valid = valid; handed_on = good.handed_on },
    [],
    dropped nothing,
    same ∙ sym (append-nil (outgoing law before l)),
  )
  Ordered-Stepped b l (p, some e) good h = h

  loop_step-Stepped :
      (event : LoopEvent) (l : Looped d)
      → IsGood law before l
      → Stepped (chunks (event ∷ [])) l (loop_step d event l)
  unfolding loop_step
  loop_step-Stepped timeout_signal l good =
      Keeps-Stepped l (on_timeout d l) (on_timeout-Keeps law before l good)
  loop_step-Stepped udp_recv_closed l good = Keeps-Stepped l (l, some udp_data_closed) tt
  loop_step-Stepped quic_send_closed l good = Keeps-Stepped l (l, some chunks_closed) tt
  loop_step-Stepped (udp_data b) l good =
      Keeps-Stepped l (on_udp_data d b l) (on_udp_data-Keeps law before b l good)
  loop_step-Stepped (chunk b) l good =
      Ordered-Stepped b l (send_once d.conn b l.process) good
        (send_once-Ordered law.is_stream l.process b good.valid)
  loop_step-Stepped ticked l good = Keeps-Stepped l (on_tick d l) (on_tick-Keeps l good)

  after-Carried :
      (event : LoopEvent) (events : List LoopEvent) (l l' : Looped d) (taken : List (List ℕ))
      (r : LoopStep d)
      → Selected (chunks (event ∷ [])) taken
      → outgoing law before l' ≡ outgoing law before l ++ concat taken
      → Carried events l' r
      → Carried (event ∷ events) l r
  after-Carried event events l l' taken (l₂, some e) choice more h = h
  after-Carried event events l l' taken (l₂, none) choice more (good, taken₂, choice₂, more₂) = (
    good,
    taken ++ taken₂,
    subst (λ bs. Selected bs (taken ++ taken₂)) (sym (chunks_cons event events))
        (Selected-append choice choice₂),
    more₂
        ∙ ap (λ xs. xs ++ concat taken₂) more
        ∙ append_assoc (outgoing law before l) (concat taken) (concat taken₂)
        ∙ ap (λ xs. outgoing law before l ++ xs) (sym (concat-append taken taken₂)),
  )

  then_next-Carried :
      (event : LoopEvent) (events : List LoopEvent) (l : Looped d) (again : Looped d → LoopStep d)
      (r : LoopStep d)
      → Stepped (chunks (event ∷ [])) l r
      → ((l' : Looped d) → IsGood law before l' → Carried events l' (again l'))
      → Carried (event ∷ events) l (then_next d again r)
  unfolding Stepped
  then_next-Carried event events l again (l', some e) h k = h
  then_next-Carried event events l again (l', none) (good, taken, choice, more) k =
      after-Carried event events l l' taken (again l') choice more (k l' good)

  -- `quic_process_loop`, over any events, with a connection that behaves as documented: as long as
  -- it goes on, what the streams gave was handed on to the reading loop, in order and each piece
  -- once; and the bytes that the connection took, followed by those that wait in the buffer, are
  -- those of before, followed by chunks that came in meanwhile, each whole, once and in the order of
  -- their arrival, though some chunks may have been dropped. Its loops end within their fuel, and
  -- `free` never fails.
  pub quic_process_loop-Carried :
      (events : List LoopEvent) (l : Looped d)
      → IsGood law before l
      → Carried events l (quic_process_loop d events l)
  unfolding quic_process_loop
  quic_process_loop-Carried [] l good =
      (good, [], nothing, sym (append-nil (outgoing law before l)))
  quic_process_loop-Carried (event ∷ events) l good =
      then_next-Carried event events l (quic_process_loop d events) (loop_step d event l)
        (loop_step-Stepped event l good) (quic_process_loop-Carried events)
