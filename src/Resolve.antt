-- ===== src/Resolve.antt =====
-- `addr_resolve` of link/src/utils.rs. The lookup of a name is the system's: `to_socket_addrs` is a
-- parameter.
mod Tests
use quote_link_rs.Base.{
  ℕ, ◌≡◌, ◌∙◌, refl, sym, ap, subst, append-nil, ok-injective, err-ne-ok, ap₂, List, [], ◌∷◌, ◌++◌,
  map, Option, none, some, Option-cases, inl, inr, Result, ok, err, All, All-append, arith,
}
use quote_link_rs.Protos.{Text}
use quote_link_rs.Transport.Token.{SocketAddr}

pub record PeerAddr : Type 0 where
  pub socket_addr : SocketAddr
  pub raw_addr : Text

pub record BackupConfig : Type 0 where
  pub addr : Text
  pub failover_threshold : ℕ

abbrev pub default_failover_threshold : ℕ
default_failover_threshold = 3

pub data ResolveError : Type 0 where
  unresolved empty : ResolveError

-- `filter(is_ipv4)`.
abbrev pub ipv4s : List SocketAddr → List SocketAddr
ipv4s [] = []
ipv4s (SocketAddr.v4 o p ∷ as') = SocketAddr.v4 o p ∷ ipv4s as'
ipv4s (SocketAddr.v6 o p ∷ as') = ipv4s as'

abbrev pub peers : Text → List SocketAddr → List PeerAddr
peers addr as' = map (λ a. record { socket_addr = a; raw_addr = addr }) (ipv4s as')

-- The peers are those of the IPv4 addresses, all and in order.
pub data V4Peers (addr : Text) : List SocketAddr → List PeerAddr → Type 0 where
  none_left : V4Peers addr [] []
  v4_kept :
      {o : List ℕ} {p : ℕ} {as' : List SocketAddr} {ps : List PeerAddr}
      → V4Peers addr as' ps
      → V4Peers addr
          (SocketAddr.v4 o p ∷ as')
          (record { socket_addr = SocketAddr.v4 o p; raw_addr = addr } ∷ ps)
  v6_left_out :
      {o : List ℕ} {p : ℕ} {as' : List SocketAddr} {ps : List PeerAddr}
      → V4Peers addr as' ps
      → V4Peers addr (SocketAddr.v6 o p ∷ as') ps

peers-V4Peers : (addr : Text) (as' : List SocketAddr) → V4Peers addr as' (peers addr as')
peers-V4Peers addr [] = none_left
peers-V4Peers addr (SocketAddr.v4 o p ∷ as') = v4_kept (peers-V4Peers addr as')
peers-V4Peers addr (SocketAddr.v6 o p ∷ as') = v6_left_out (peers-V4Peers addr as')

abbrev Found : Type 0
Found = PeerAddr × List PeerAddr

module _ (to_socket_addrs : Text → Option (List SocketAddr)) where
  abbrev extended :
      PeerAddr
      → List PeerAddr
      → Text
      → Option (List SocketAddr)
      → Result ResolveError (PeerAddr × List PeerAddr)
  extended first rest addr none = err unresolved
  extended first rest addr (some as') = ok (first, rest ++ peers addr as')

  abbrev with_backup :
      Option BackupConfig
      → PeerAddr
      → List PeerAddr
      → Result ResolveError (PeerAddr × List PeerAddr)
  with_backup none first rest = ok (first, rest)
  with_backup (some b) first rest = extended first rest b.addr (to_socket_addrs b.addr)

  abbrev split_first :
      Option BackupConfig → List PeerAddr → Result ResolveError (PeerAddr × List PeerAddr)
  split_first backup [] = err empty
  split_first backup (first ∷ rest) = with_backup backup first rest

  abbrev of_master :
      Text
      → Option BackupConfig
      → Option (List SocketAddr)
      → Result ResolveError (PeerAddr × List PeerAddr)
  of_master addr backup none = err unresolved
  of_master addr backup (some as') = split_first backup (peers addr as')

  unfoldable pub addr_resolve :
      Text → Option BackupConfig → Result ResolveError (PeerAddr × List PeerAddr)
  addr_resolve addr backup = of_master addr backup (to_socket_addrs addr)

  -- What the lookup of the backup's name adds.
  abbrev pub Added : Option BackupConfig → List PeerAddr → Type 0
  Added none added = added ≡ []
  Added (some b) added =
      (as' : List SocketAddr) × (to_socket_addrs b.addr ≡ some as') × V4Peers b.addr as' added

  with_backup-ok :
      (backup : Option BackupConfig) (first m : PeerAddr) (rest bs : List PeerAddr)
      → with_backup backup first rest ≡ ok (m, bs)
      → (added : List PeerAddr) × (m ∷ bs ≡ (first ∷ rest) ++ added) × Added backup added
  with_backup-ok none first m rest bs h =
      let e : first ∷ rest ≡ m ∷ bs = ap (λ (x : Found). x.0 ∷ x.1) (ok-injective h) in
      ([], sym e ∙ sym (append-nil (first ∷ rest)), refl)
  with_backup-ok (some b) first m rest bs h = elim (Option-cases (to_socket_addrs b.addr)) [
    | inl e ↦ absurd (err-ne-ok (sym (ap (extended first rest b.addr) e) ∙ h))
    | inr (as', e) ↦
        let k : first ∷ (rest ++ peers b.addr as') ≡ m ∷ bs =
          ap (λ (x : Found). x.0 ∷ x.1)
            (ok-injective (sym (ap (extended first rest b.addr) e) ∙ h)) in
        (peers b.addr as', sym k, (as', e, peers-V4Peers b.addr as'))
  ]

  split_first-ok :
      (backup : Option BackupConfig) (m : PeerAddr) (found bs : List PeerAddr)
      → split_first backup found ≡ ok (m, bs)
      → (added : List PeerAddr) × (m ∷ bs ≡ found ++ added) × Added backup added
  split_first-ok backup m [] bs h = absurd (err-ne-ok h)
  split_first-ok backup m (first ∷ rest) bs h = with_backup-ok backup first m rest bs h

  -- When a name is resolved, the addresses, the one to connect to first, are all the IPv4 addresses
  -- that the lookup gave, in its order and with the name, followed by all those of the backup's name,
  -- if there is a backup; no other address is among them.
  pub addr_resolve-ok :
      (addr : Text) (backup : Option BackupConfig) (m : PeerAddr) (bs : List PeerAddr)
      → addr_resolve addr backup ≡ ok (m, bs)
      → (as' : List SocketAddr) × (found added : List PeerAddr) × (to_socket_addrs addr ≡ some as')
        × V4Peers addr as' found
        × (m ∷ bs ≡ found ++ added)
        × Added backup added
  unfolding addr_resolve
  addr_resolve-ok addr backup m bs h = elim (Option-cases (to_socket_addrs addr)) [
    | inl e ↦ absurd (err-ne-ok (sym (ap (of_master addr backup) e) ∙ h))
    | inr (as', e) ↦
        let (added, all, why) =
          split_first-ok backup m (peers addr as') bs (sym (ap (of_master addr backup) e) ∙ h) in
        (as', peers addr as', added, e, peers-V4Peers addr as', all, why)
  ]
