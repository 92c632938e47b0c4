-- ===== src/Transport/Token.antt =====
-- The retry tokens of link/src/transport/server.rs: `mint_token` and `validate_token`.
use quote_link_rs.Base.{
  ℕ, ◌≡◌, ◌∙◌, ◌↔◌, refl, sym, ap, ap₂, List, [], ◌∷◌, ◌++◌, append_assoc, Bool, true, false, not,
  ◌||◌, Option, none, some, length, length-append, take, drop, take-append-drop, take-append_length,
  drop-append_length, text_eq, text_eq→≡, text_eq_refl, ltb, le→ltb, if◌then◌else◌, arith,
}

-- `std::net::SocketAddr`: the octets of the address, and the port.
pub data SocketAddr : Type 0 where
  v4 v6 : List ℕ → ℕ → SocketAddr

-- "link-rs"
abbrev pub token_prefix : List ℕ
token_prefix = 108 ∷ 105 ∷ 110 ∷ 107 ∷ 45 ∷ 114 ∷ 115 ∷ []

abbrev pub token_prefix_len : ℕ
token_prefix_len = 7

abbrev pub octets : SocketAddr → List ℕ
octets (SocketAddr.v4 o port) = o
octets (SocketAddr.v6 o port) = o

unfoldable pub mint_token : List ℕ → SocketAddr → List ℕ
mint_token dcid src = (token_prefix ++ octets src) ++ dcid

abbrev validate_rest : List ℕ → List ℕ → Option (List ℕ)
validate_rest addr token =
    if ltb (length token) (length addr) || not (text_eq (take (length addr) token) addr)
    then none
    else some (drop (length addr) token)

unfoldable pub validate_token : SocketAddr → List ℕ → Option (List ℕ)
validate_token src token =
    if ltb (length token) token_prefix_len
    then none
    else (if text_eq (take token_prefix_len token) token_prefix
        then validate_rest (octets src) (drop token_prefix_len token)
        else none)

validate_rest-append : (addr cid : List ℕ) → validate_rest addr (addr ++ cid) ≡ some cid
validate_rest-append addr cid =
    rw
      (
        take-append_length addr cid,
        drop-append_length addr cid,
        text_eq_refl addr,
        le→ltb (length (addr ++ cid)) (length addr) (omega (arith, length-append addr cid)),
      )
      refl

unless-some :
    {A : Type 0} (b : Bool) (o : Option A) {y : A}
    → (if b then none else o) ≡ some y
    → (b ≡ false) × (o ≡ some y)
unless-some true o h = absurd (ground (arith, h))
unless-some false o h = (refl, h)

when-some :
    {A : Type 0} (b : Bool) (o : Option A) {y : A}
    → (if b then o else none) ≡ some y
    → (b ≡ true) × (o ≡ some y)
when-some true o h = (refl, h)
when-some false o h = absurd (ground (arith, h))

neither : (a b : Bool) → a || not b ≡ false → b ≡ true
neither true b h = absurd (ground (arith, h))
neither false true h = refl
neither false false h = absurd (ground (arith, h))

validate_rest-some :
    (addr token cid : List ℕ) → validate_rest addr token ≡ some cid → token ≡ addr ++ cid
validate_rest-some addr token cid h =
    let (test, e) =
      unless-some
        (ltb (length token) (length addr) || not (text_eq (take (length addr) token) addr))
        (some (drop (length addr) token)) h in
    let same : text_eq (take (length addr) token) addr ≡ true = neither _ _ test in
    let rest : drop (length addr) token ≡ cid = ground (arith, e) in
    sym (take-append-drop (length addr) token) ∙ ap₂ (λ xs ys. xs ++ ys) (text_eq→≡ _ _ same) rest

-- A token is accepted for an address exactly if it is the one that was made for this address, and
-- the connection id that comes out is the one that went in.
pub validate_token-mint_token :
    (src : SocketAddr) (token cid : List ℕ)
    → (validate_token src token ≡ some cid) ↔ (token ≡ mint_token cid src)
unfolding validate_token mint_token
validate_token-mint_token src token cid = (accepted, minted)
  where
    accepted : validate_token src token ≡ some cid → token ≡ mint_token cid src
    accepted h =
        let (_, inner) = unless-some (ltb (length token) token_prefix_len) _ h in
        let (same, rest) = when-some (text_eq (take token_prefix_len token) token_prefix) _ inner in
        sym (take-append-drop token_prefix_len token)
        ∙ ap₂ (λ xs ys. xs ++ ys) (text_eq→≡ _ _ same)
            (validate_rest-some (octets src) (drop token_prefix_len token) cid rest)
        ∙ sym (append_assoc token_prefix (octets src) cid)

    straight : validate_token src (token_prefix ++ (octets src ++ cid)) ≡ some cid
    straight =
        rw (le→ltb (length (token_prefix ++ (octets src ++ cid))) token_prefix_len (omega arith))
          (validate_rest-append (octets src) cid)

    minted : token ≡ mint_token cid src → validate_token src token ≡ some cid
    minted e = ap (validate_token src) (e ∙ append_assoc token_prefix (octets src) cid) ∙ straight
