-- ===== src/Transport/Listen/Inbox.antt =====
-- What `listen_at` of link/src/transport/transport.rs, and the tasks that it spawns, put into the
-- channel of a connection.
use quote_link_rs.Base.{
  ℕ, zero, suc, ◌+◌, ◌-◌, ◌≡◌, ◌∙◌, inl, inr, refl, sym, ap, subst, List, [], ◌∷◌, ◌++◌, map,
  append-nil, append_assoc, Bool-cases, false, Option, none, some, Option-cases, text_eq, ◌==◌,
  if◌then◌else◌, arith,
}
use mathlib.Core.List.{map-append}
use quote_link_rs.Transport.ProcessLoop.Carried.{Selected, nothing, kept, dropped, Selected-append}
use quote_link_rs.Transport.Listen.{Handed, queued, delayed, Peer, hand_over, behind, pick, resume}

abbrev pub bytes : Handed → List ℕ
bytes (queued d) = d
bytes (delayed d) = d

-- What a connection was given: in its channel, or in a task that waits.
abbrev pub held : Peer → List (List ℕ)
held p = map bytes p.channel ++ p.waiting

-- What the loop put into the channel itself.
abbrev pub direct : List Handed → List (List ℕ)
direct [] = []
direct (queued d ∷ hs) = d ∷ direct hs
direct (delayed d ∷ hs) = direct hs

direct-append : (xs ys : List Handed) → direct (xs ++ ys) ≡ direct xs ++ direct ys
direct-append [] ys = refl
direct-append (queued d ∷ xs) ys = ap (λ ds. d ∷ ds) (direct-append xs ys)
direct-append (delayed d ∷ xs) ys = direct-append xs ys

-- How often a datagram stands in the list.
abbrev pub count : List ℕ → List (List ℕ) → ℕ
count x [] = 0
count x (d ∷ ds) = if text_eq x d then suc (count x ds) else count x ds

pub count-append :
    (x : List ℕ) (xs ys : List (List ℕ)) → count x (xs ++ ys) ≡ count x xs + count x ys
count-append x [] ys = omega arith
count-append x (d ∷ xs) ys = ground (arith, count-append x xs ys)

abbrev joined : Option (List ℕ × List (List ℕ)) → List (List ℕ)
joined none = []
joined (some (d, ds)) = d ∷ ds

-- A task that is picked is one of those that wait.
count-pick :
    (x : List ℕ) (k : ℕ) (ds : List (List ℕ)) (d : List ℕ) (rest : List (List ℕ))
    → pick k ds ≡ some (d, rest)
    → count x ds ≡ count x (d ∷ rest)
count-pick x k [] d rest h = cc
count-pick x zero (y ∷ ds) d rest h = ap (count x) (ap joined h)
count-pick x (suc k) (y ∷ ds) d rest h = elim (Option-cases (pick k ds)) [
  | inl e ↦ let never : none ≡ some (d, rest) = sym (ap (behind y) e) ∙ h in cc
  | inr ((d', ds'), e) ↦
      let both : some (d', y ∷ ds') ≡ some (d, rest) = sym (ap (behind y) e) ∙ h in
      let same : d' ∷ (y ∷ ds') ≡ d ∷ rest = ap joined both in
      let swapped : count x (y ∷ (d' ∷ ds')) ≡ count x (d' ∷ (y ∷ ds')) = ground arith in
      let inner : count x (y ∷ ds) ≡ count x (y ∷ (d' ∷ ds')) =
        ground (arith, count-pick x k ds d' ds' e) in
      inner ∙ swapped ∙ ap (count x) same
]

-- From `p` to `p'` the connection was given `more`.
abbrev pub Gained : List (List ℕ) → Peer → Peer → Type 0
Gained more p p' =
    (p'.is_closed ≡ p.is_closed)
    × ((x : List ℕ) → count x (held p') ≡ count x (held p) + count x more)
    × ((ds : List (List ℕ))
        → Selected ds (direct p.channel)
        → Selected (ds ++ more) (direct p'.channel))

abbrev pub Keeps : (Peer → Peer) → Type 0
Keeps f = (p : Peer) → p.is_closed ≡ false → Gained [] p (f p)

unchanged-Selected :
    (ds : List (List ℕ)) (hs : List Handed)
    → Selected ds (direct hs)
    → Selected (ds ++ []) (direct hs)
unchanged-Selected ds hs h = subst (λ xs. Selected xs (direct hs)) (sym (append-nil ds)) h

pub takes-Keeps : (n : ℕ) → Keeps (λ p. record p { free = p.free + n })
takes-Keeps n p h = (refl, (λ x. omega arith), (λ ds k. unchanged-Selected ds p.channel k))

-- A datagram that a task sends goes from those that wait to the end of the channel.
delayed-Gained :
    (k : ℕ) (p : Peer) (d : List ℕ) (rest : List (List ℕ))
    → pick k p.waiting ≡ some (d, rest)
    → Gained [] p
        (record p { free = p.free - 1; channel = p.channel ++ (delayed d ∷ []); waiting = rest })
delayed-Gained k p d rest e = (
  refl,
  (λ x.
      ap (λ xs. count x (xs ++ rest)) (map-append bytes p.channel (delayed d ∷ []))
      ∙ omega (
        arith,
        count-append x (map bytes p.channel ++ (d ∷ [])) rest,
        count-append x (map bytes p.channel) (d ∷ []),
        count-append x (map bytes p.channel) p.waiting,
        count-append x (d ∷ []) rest,
        count-pick x k p.waiting d rest e,
      )),
  (λ ds h.
      subst (Selected (ds ++ []))
        (sym (direct-append p.channel (delayed d ∷ []) ∙ append-nil (direct p.channel)))
        (unchanged-Selected ds p.channel h)),
)

pub resume-Keeps : (k : ℕ) → Keeps (resume k)
unfolding resume
resume-Keeps k p h = elim (Option-cases (pick k p.waiting)) [
  | inl e ↦ rw e (refl, (λ x. omega arith), (λ ds c. unchanged-Selected ds p.channel c))
  | inr ((d, rest), e) ↦ elim (Bool-cases (p.free == 0)) [
    | inl full ↦
        rw (e, h, full) (refl, (λ x. omega arith), (λ ds c. unchanged-Selected ds p.channel c))
    | inr room ↦
        let (same, counts, in_order) = delayed-Gained k p d rest e in
        rw (e, h, room) (refl, counts, in_order)
  ]
]

pub hand_over-Gained : (d : List ℕ) (p : Peer) → Gained (d ∷ []) p (hand_over d p)
unfolding hand_over
hand_over-Gained d p = elim (Bool-cases (p.free == 0)) [
  | inl full ↦ rw full (
    refl,
    (λ x.
        ap (count x) (sym (append_assoc (map bytes p.channel) p.waiting (d ∷ [])))
        ∙ count-append x (held p) (d ∷ [])),
    (λ ds h.
        subst (Selected (ds ++ (d ∷ []))) (append-nil (direct p.channel))
          (Selected-append h (dropped nothing))),
  )
  | inr room ↦ rw room (
    refl,
    (λ x.
        ap (λ xs. count x (xs ++ p.waiting)) (map-append bytes p.channel (queued d ∷ []))
        ∙ omega (
          arith,
          count-append x (map bytes p.channel ++ (d ∷ [])) p.waiting,
          count-append x (map bytes p.channel) (d ∷ []),
          count-append x (map bytes p.channel) p.waiting,
        )),
    (λ ds h.
        subst (Selected (ds ++ (d ∷ []))) (sym (direct-append p.channel (queued d ∷ [])))
          (Selected-append h (kept nothing))),
  )
]
