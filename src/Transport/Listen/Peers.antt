-- ===== src/Transport/Listen/Peers.antt =====
-- The map of addresses that `listen_at` of link/src/transport/transport.rs keeps.
use quote_link_rs.Base.{
  ℕ, ◌≡◌, inl, inr, refl, sym, ap₂, subst, List, [], ◌∷◌, Bool-cases, true, false, Option, none,
  some, take, text_eq→≡, text_eq_refl, arith,
}
use quote_link_rs.Transport.Token.{SocketAddr}
use quote_link_rs.Transport.Listen.{
  addr_eq, Peer, PeerMap, Listener, Event, ticked, recv_failed, arrived, closes, takes, resumes,
  lookup, update, retain_open, hand_over, accept, on_lookup, step,
}

pub addr_eq→≡ : (a b : SocketAddr) → addr_eq a b ≡ true → a ≡ b
addr_eq→≡ (SocketAddr.v4 o p) (SocketAddr.v4 o' p') h =
    ap₂ SocketAddr.v4 (text_eq→≡ o o' (ground (arith, h))) (ground (arith, h))
addr_eq→≡ (SocketAddr.v6 o p) (SocketAddr.v6 o' p') h =
    ap₂ SocketAddr.v6 (text_eq→≡ o o' (ground (arith, h))) (ground (arith, h))
addr_eq→≡ (SocketAddr.v4 o p) (SocketAddr.v6 o' p') h = cc
addr_eq→≡ (SocketAddr.v6 o p) (SocketAddr.v4 o' p') h = cc

pub addr_eq_refl : (a : SocketAddr) → addr_eq a a ≡ true
addr_eq_refl (SocketAddr.v4 o p) = ground (arith, text_eq_refl o)
addr_eq_refl (SocketAddr.v6 o p) = ground (arith, text_eq_refl o)

pub addr_eq_sym : (a b : SocketAddr) → addr_eq a b ≡ false → addr_eq b a ≡ false
addr_eq_sym a b h = elim (Bool-cases (addr_eq b a)) [
  | inr e ↦ e
  | inl e ↦
      absurd
        (ground (arith, subst (λ x. addr_eq x b ≡ false) (sym (addr_eq→≡ b a e)) h, addr_eq_refl b))
]

module _ (a : SocketAddr) where
  -- The entry of an address, after a change of an entry.
  pub lookup-update_self :
      (f : Peer → Peer) (m : PeerMap) (p : Peer)
      → lookup a m ≡ some p
      → lookup a (update a f m) ≡ some (f p)
  unfolding lookup update
  lookup-update_self f [] p h = cc
  lookup-update_self f ((b, q) ∷ m) p h = ground (arith, lookup-update_self f m p)

  pub lookup-update_absent :
      (b : SocketAddr) (f : Peer → Peer) (m : PeerMap)
      → lookup a m ≡ none
      → lookup a (update b f m) ≡ none
  unfolding lookup update
  lookup-update_absent b f [] h = refl
  lookup-update_absent b f ((c, q) ∷ m) h = ground (arith, lookup-update_absent b f m)

  pub lookup-update_other :
      (b : SocketAddr) (f : Peer → Peer) (m : PeerMap)
      → addr_eq b a ≡ false
      → lookup a (update b f m) ≡ lookup a m
  unfolding lookup update
  lookup-update_other b f [] h = refl
  lookup-update_other b f ((c, q) ∷ m) h = elim (Bool-cases (addr_eq c b)) [
    | inl e ↦
        let other : addr_eq c a ≡ false =
          subst (λ x. addr_eq x a ≡ false) (sym (addr_eq→≡ c b e)) h in
        ground arith
    | inr e ↦ ground (arith, lookup-update_other b f m)
  ]

  pub lookup-retain_open :
      (m : PeerMap) (p : Peer)
      → lookup a m ≡ some p
      → p.is_closed ≡ false
      → lookup a (retain_open m) ≡ some p
  unfolding lookup retain_open
  lookup-retain_open [] p h k = cc
  lookup-retain_open ((b, q) ∷ m) p h k = ground (arith, lookup-retain_open m p)

  pub lookup-retain_absent : (m : PeerMap) → lookup a m ≡ none → lookup a (retain_open m) ≡ none
  unfolding lookup retain_open
  lookup-retain_absent [] h = refl
  lookup-retain_absent ((b, q) ∷ m) h = ground (arith, lookup-retain_absent m)

-- No address has two entries.
abbrev pub IsDistinct : PeerMap → Type 0
IsDistinct [] = Unit
IsDistinct ((b, p) ∷ m) = (lookup b m ≡ none) × IsDistinct m

-- Where no address has two entries, an entry that is closed is gone after the clearing.
pub lookup-retain_closed :
    (a : SocketAddr) (m : PeerMap) (p : Peer)
    → IsDistinct m
    → lookup a m ≡ some p
    → p.is_closed ≡ true
    → lookup a (retain_open m) ≡ none
unfolding lookup retain_open
lookup-retain_closed a [] p v h k = cc
lookup-retain_closed a ((b, q) ∷ m) p v h k = elim (Bool-cases (addr_eq b a)) [
  | inl e ↦
      let gone : lookup a m ≡ none = subst (λ x. lookup x m ≡ none) (addr_eq→≡ b a e) v.0 in
      ground (arith, lookup-retain_absent a m)
  | inr e ↦ ground (arith, lookup-retain_closed a m p v.1)
]

retain_open-IsDistinct : (m : PeerMap) → IsDistinct m → IsDistinct (retain_open m)
unfolding retain_open
retain_open-IsDistinct [] v = tt
retain_open-IsDistinct ((b, q) ∷ m) v = elim (Bool-cases q.is_closed) [
  | inl closed ↦ rw closed (retain_open-IsDistinct m v.1)
  | inr open_still ↦ rw open_still (lookup-retain_absent b m v.0, retain_open-IsDistinct m v.1)
]

update-IsDistinct :
    (a : SocketAddr) (f : Peer → Peer) (m : PeerMap) → IsDistinct m → IsDistinct (update a f m)
unfolding update
update-IsDistinct a f [] v = tt
update-IsDistinct a f ((b, q) ∷ m) v = elim (Bool-cases (addr_eq b a)) [
  | inl here ↦ rw here v
  | inr there ↦ rw there (lookup-update_absent b a f m v.0, update-IsDistinct a f m v.1)
]

on_lookup-IsDistinct :
    (chan : ℕ) (from : SocketAddr) (d : List ℕ) (l : Listener) (o : Option Peer)
    → lookup from l.peers ≡ o
    → IsDistinct l.peers
    → IsDistinct (on_lookup chan from d l o).peers
unfolding accept
on_lookup-IsDistinct chan from d l none e v =
    (lookup-retain_absent from l.peers e, retain_open-IsDistinct l.peers v)
on_lookup-IsDistinct chan from d l (some p) e v = elim (Bool-cases p.is_closed) [
  | inl closed ↦ rw closed v
  | inr open_still ↦ rw open_still (update-IsDistinct from (hand_over d) l.peers v)
]

pub step-IsDistinct :
    (size chan : ℕ) (event : Event) (l : Listener)
    → IsDistinct l.peers
    → IsDistinct (step size chan event l).peers
unfolding step
step-IsDistinct size chan ticked l v = retain_open-IsDistinct l.peers v
step-IsDistinct size chan recv_failed l v = v
step-IsDistinct size chan (arrived from d) l v =
    on_lookup-IsDistinct chan from (take size d) l (lookup from l.peers) refl v
step-IsDistinct size chan (closes a) l v = update-IsDistinct a _ l.peers v
step-IsDistinct size chan (takes a n) l v = update-IsDistinct a _ l.peers v
step-IsDistinct size chan (resumes a k) l v = update-IsDistinct a _ l.peers v
