-- ===== src/Settings/Bind.antt =====
-- The address that a server binds to on an interface.
use cserf.Prelude.{
  ◌≡◌, ◌⊎◌, refl, ap, Bool, true, false, Option, none, some, List, [], ◌∷◌, ◌++◌, Text, text_eq,
  text_eq_iff, All, arith, Bool-cases, inl, inr,
}
use cserf.Settings.{
  IfaceAddr, ip_addr, other_addr, Iface, Interfaces, get_iface, find_addr, extract_ip, bound,
  no_address, bind_iface, any_addr, choose,
}

-- Whether a server with this address may bind to `t`: with any address (`any` is true) to one that is not
-- link-local, else to its own address alone.
abbrev pub Suits : Bool → Text → Text → Bool → Type 0
Suits true addr t local = local ≡ false
Suits false addr t local = t ≡ addr

abbrev pub Unfit : Bool → Text → IfaceAddr → Type 0
Unfit any addr (ip_addr t local) = ¬ Suits any addr t local
Unfit any addr other_addr = Unit

-- The address is the first of the list that suits.
pub record IsFirst (any : Bool) (addr : Text) (l : List IfaceAddr) (t : Text) : Type 0 where
  pub before : List IfaceAddr
  pub after : List IfaceAddr
  pub local : Bool
  pub splits : l ≡ before ++ (ip_addr t local ∷ after)
  pub passed : All (Unfit any addr) before
  pub suits : Suits any addr t local

abbrev Finds : Bool → Text → List IfaceAddr → Option Text → Type 0
Finds any addr l o =
    ((t : Text) × (o ≡ some t) × IsFirst any addr l t) ⊎ ((o ≡ none) × All (Unfit any addr) l)

choose-Suits :
    (any : Bool) (addr t : Text) (local : Bool)
    → ((choose any addr (t, local) ≡ some t) × Suits any addr t local)
      ⊎ ((choose any addr (t, local) ≡ none) × (¬ Suits any addr t local))
choose-Suits true addr t true = inr (refl, λ e. cc)
choose-Suits true addr t false = inl (refl, refl)
choose-Suits false addr t local = elim (Bool-cases (text_eq t addr)) [
  | inl same ↦ inl (ground (arith, same, (text_eq_iff t addr).0), (text_eq_iff t addr).0 same)
  | inr other ↦ inr (ground (arith, other), λ e. cc (other, (text_eq_iff t addr).1 e))
]

skip_first :
    (any : Bool) (addr : Text) (a : IfaceAddr) (l : List IfaceAddr) (o : Option Text)
    → Unfit any addr a
    → Finds any addr l o
    → Finds any addr (a ∷ l) o
skip_first any addr a l o u (inl (t, e, f)) = inl (
  t,
  e,
  record {
    before = a ∷ f.before;
    after = f.after;
    local = f.local;
    splits = ap (λ l. a ∷ l) f.splits;
    passed = (u, f.passed);
    suits = f.suits;
  },
)
skip_first any addr a l o u (inr (e, all)) = inr (e, (u, all))

find_addr-Finds :
    (any : Bool) (addr : Text) (l : List IfaceAddr) → Finds any addr l (find_addr any addr l)
unfolding find_addr extract_ip
find_addr-Finds any addr [] = inr (refl, tt)
find_addr-Finds any addr (other_addr ∷ l) =
    skip_first any addr other_addr l (find_addr any addr l) tt (find_addr-Finds any addr l)
find_addr-Finds any addr (ip_addr t local ∷ l) = elim (choose-Suits any addr t local) [
  | inl (e, s) ↦ inl (
    t,
    rw (e, find_addr) refl,
    record { before = []; after = l; local = local; splits = refl; passed = tt; suits = s },
  )
  | inr (e, u) ↦
      rw (e, find_addr)
        (skip_first any addr (ip_addr t local) l (find_addr any addr l) u
          (find_addr-Finds any addr l))
]

-- On an interface, `bindIface` returns the first of its addresses that suits: the server's own one, or, for
-- `0.0.0.0`, one that is not link-local. It returns an error exactly if none does.
pub bind_iface_lem :
    (by_name : Interfaces) (name addr : Text) (i : Iface) (l : List IfaceAddr)
    → get_iface by_name name ≡ some i
    → i.addrs ≡ some l
    → ((t : Text) × (bind_iface by_name name addr ≡ bound t)
        × IsFirst (text_eq addr any_addr) addr l t)
      ⊎ ((bind_iface by_name name addr ≡ no_address) × All (Unfit (text_eq addr any_addr) addr) l)
unfolding bind_iface
bind_iface_lem by_name name addr i l e k = elim (find_addr-Finds (text_eq addr any_addr) addr l) [
  | inl (t, found, first) ↦ inl (t, ground (arith, e, k, found), first)
  | inr (lost, all) ↦ inr (ground (arith, e, k, lost), all)
]
