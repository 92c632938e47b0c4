-- ===== src/Resolve/Tests.antt =====
-- A lookup with two addresses for each name.
use quote_link_rs.Base.{◌≡◌, refl, List, [], ◌∷◌, ◌++◌, Option, some}
use quote_link_rs.Protos.{Text}
use quote_link_rs.Transport.Token.{SocketAddr}
use quote_link_rs.Resolve.{
  PeerAddr, BackupConfig, peers, V4Peers, addr_resolve, Added, addr_resolve-ok,
}

abbrev found : List SocketAddr
found = SocketAddr.v6 (1 ∷ []) 80 ∷ SocketAddr.v4 (10 ∷ 0 ∷ 0 ∷ 1 ∷ []) 80 ∷ []

abbrev lookup : Text → Option (List SocketAddr)
lookup addr = some found

abbrev backup : Option BackupConfig
backup = some (record { addr = 66 ∷ []; failover_threshold = 3 })

addr_resolve-ok_example :
    (as' : List SocketAddr) × (all added : List PeerAddr) × (lookup (65 ∷ []) ≡ some as')
    × V4Peers (65 ∷ []) as' all
    × (peers (65 ∷ []) found ++ peers (66 ∷ []) found ≡ all ++ added)
    × Added lookup backup added
unfolding addr_resolve
addr_resolve-ok_example =
    addr_resolve-ok lookup (65 ∷ []) backup
      (record { socket_addr = SocketAddr.v4 (10 ∷ 0 ∷ 0 ∷ 1 ∷ []) 80; raw_addr = 65 ∷ [] })
      (peers (66 ∷ []) found) refl
