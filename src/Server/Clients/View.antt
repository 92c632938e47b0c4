-- ===== src/Server/Clients/View.antt =====
-- The clients of link/src/server.rs as a function from their names.
use quote_link_rs.Base.{
  ℕ, ◌≡◌, ◌∙◌, refl, sym, ap, List, [], ◌∷◌, false, Bool-cases, inl, inr, Option, none, some,
  text_eq, text_eq→≡, text_eq_refl, if◌then◌else◌, arith,
}
use quote_link_rs.Protos.{Text}
use quote_link_rs.Server.{close_client, shutdown}
use quote_link_rs.Server.Clients.{
  Clients, lookup, remove, insert, MgmtEvent, signal, new_client, exit_client, interval, send,
  mgmt_loop,
}

abbrev pub View : Type 0
View = Text → Option ℕ

-- The client `name` is the connection `o` from now on.
abbrev pub set : Text → Option ℕ → View → View
set name o v k = if text_eq k name then o else v k

-- The last event about a name before the shutdown decides.
abbrev pub expected : List MgmtEvent → View → View
expected [] v = v
expected (signal (close_client name) ∷ es) v = expected es (set name none v)
expected (signal shutdown ∷ es) v = v
expected (new_client name c ∷ es) v = expected es (set name (some c) v)
expected (exit_client name ∷ es) v = expected es (set name none v)
expected (interval ∷ es) v = expected es v
expected (send p ∷ es) v = expected es v

text_eq_other : (k name a : Text) → k ≡ a → text_eq name a ≡ false → text_eq k name ≡ false
text_eq_other k name a e h = elim (Bool-cases (text_eq k name)) [
  | inl same ↦ absurd (
      ground (
        arith,
        h,
        sym (ap (λ n. text_eq n a) (sym (text_eq→≡ k name same) ∙ e)) ∙ h,
        text_eq_refl a,
      ))
  | inr other ↦ other
]

pub lookup-remove :
    (k name : Text) (m : Clients) → lookup k (remove name m) ≡ set name none (λ k'. lookup k' m) k
unfolding lookup remove
lookup-remove k name [] = ground arith
lookup-remove k name ((a, c) ∷ m) = elim (Bool-cases (text_eq name a)) [
  | inl same ↦ rw (same, sym (text_eq→≡ name a same)) (lookup-remove k name m ∙ ground arith)
  | inr other ↦ elim (Bool-cases (text_eq k a)) [
    | inl here ↦ rw (other, here, text_eq_other k name a (text_eq→≡ k a here) other) refl
    | inr there ↦ rw (other, there) (lookup-remove k name m)
  ]
]

-- Each name stands once in the map.
abbrev pub Distinct : Clients → Type 0
Distinct [] = Unit {0}
Distinct ((a, c) ∷ m) = (lookup a m ≡ none) × Distinct m

remove-Distinct : (name : Text) (m : Clients) → Distinct m → Distinct (remove name m)
unfolding remove
remove-Distinct name [] h = tt
remove-Distinct name ((a, c) ∷ m) (fresh, h) = elim (Bool-cases (text_eq name a)) [
  | inl same ↦ rw same (remove-Distinct name m h)
  | inr other ↦ rw other (lookup-remove a name m ∙ ground (arith, fresh), remove-Distinct name m h)
]

insert-Distinct : (name : Text) (c : ℕ) (m : Clients) → Distinct m → Distinct (insert name c m)
unfolding insert
insert-Distinct name c m h =
    (lookup-remove name name m ∙ ground (arith, text_eq_refl name), remove-Distinct name m h)

-- The map shows the view `v`.
abbrev Shows : Clients → View → Type 0
Shows m v = ((k : Text) → lookup k m ≡ v k) × Distinct m

remove-Shows :
    (name : Text) (m : Clients) (v : View) → Shows m v → Shows (remove name m) (set name none v)
remove-Shows name m v (h, u) = (
  λ k. lookup-remove k name m ∙ ap (λ o. if text_eq k name then none else o) (h k),
  remove-Distinct name m u,
)

insert-Shows :
    (name : Text) (c : ℕ) (m : Clients) (v : View)
    → Shows m v
    → Shows (insert name c m) (set name (some c) v)
unfolding insert lookup
insert-Shows name c m v (h, u) = (shown, insert-Distinct name c m u)
  where
    shown : (k : Text) → lookup k (insert name c m) ≡ set name (some c) v k
    shown k = elim (Bool-cases (text_eq k name)) [
      | inl same ↦ rw same refl
      | inr other ↦ rw other (lookup-remove k name m ∙ rw other (h k))
    ]

loop-Shows :
    (es : List MgmtEvent) (m : Clients) (v : View)
    → Shows m v
    → Shows (mgmt_loop es m).0 (expected es v)
unfolding mgmt_loop
loop-Shows [] m v h = h
loop-Shows (signal (close_client name) ∷ es) m v h = loop-Shows es _ _ (remove-Shows name m v h)
loop-Shows (signal shutdown ∷ es) m v h = h
loop-Shows (new_client name c ∷ es) m v h = loop-Shows es _ _ (insert-Shows name c m v h)
loop-Shows (exit_client name ∷ es) m v h = loop-Shows es _ _ (remove-Shows name m v h)
loop-Shows (interval ∷ es) m v h = loop-Shows es m v h
loop-Shows (send p ∷ es) m v h = loop-Shows es m v h

-- After any events from the empty map on, the map has for a name what the last event about this name
-- says, up to the shutdown: the connection that came under it last, or none if it was closed or left
-- since. And no name stands twice in it.
pub mgmt_loop-Shows :
    (es : List MgmtEvent)
    → ((k : Text) → lookup k (mgmt_loop es []).0 ≡ expected es (λ k'. none) k)
      × Distinct (mgmt_loop es []).0
unfolding lookup
mgmt_loop-Shows es = loop-Shows es [] (λ k. none) ((λ k. refl), tt)
