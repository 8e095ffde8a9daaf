-- ===== src/Rpc/Mdns/Found.antt =====
-- Which hosts the discovery joins.
use cserf.Prelude.{
  ◌≡◌, ◌≢◌, ◌⊎◌, refl, All-snoc, sym, ap, subst, ◌∙◌, Bool, true, false, Option, none, some, List,
  [], ◌∷◌, ◌++◌, append-nil, append_assoc, Text, text_key, text_eq, get, put, get-put, All, arith,
  if◌then◌else◌, if_both, if_lem, text_eq_refl, inl, inr,
}
use cserf.Rpc.Mdns.{
  ClusterMdns, Signal, on_result, on_wait, on_poll, new_cluster_mdns, run_one, run, add_host,
  join_hosts,
}

abbrev pub is_in : Text → List Text → Bool
is_in a [] = false
is_in a (b ∷ bs) = if text_eq b a then true else is_in a bs

-- The specification: the addresses that are found and not known before, each at its first result.
abbrev pub new_hosts : List Text → List Signal → List Text
new_hosts known [] = []
new_hosts known (on_result a ∷ gs) =
    if is_in a known then new_hosts known gs else a ∷ new_hosts (a ∷ known) gs
new_hosts known (on_wait ∷ gs) = new_hosts known gs
new_hosts known (on_poll ∷ gs) = new_hosts known gs

-- The hosts of a call of `Join` are the first ones of `hosts`.
abbrev pub IsPrefix : List Text → List Text → Type 0
IsPrefix hosts call = (more : List Text) × (call ++ more ≡ hosts)

abbrev pub last_call : List (List Text) → List Text
last_call [] = []
last_call (c ∷ []) = c
last_call (c ∷ d ∷ cs) = last_call (d ∷ cs)

last_call-snoc : (cs : List (List Text)) (c : List Text) → last_call (cs ++ (c ∷ [])) ≡ c
last_call-snoc [] c = refl
last_call-snoc (d ∷ []) c = refl
last_call-snoc (d ∷ e ∷ cs) c = last_call-snoc (e ∷ cs) c

-- Every call was given the first ones of the hosts, and the last one all of them, unless the timer runs.
pub record Calls (m : ClusterMdns) : Type 0 where
  pub prefixes : All (IsPrefix m.join) m.joined
  pub told : (m.waiting ≡ true) ⊎ (last_call m.joined ≡ m.join)

longer :
    (hosts : List Text) (a : Text) (cs : List (List Text))
    → All (IsPrefix hosts) cs
    → All (IsPrefix (hosts ++ (a ∷ []))) cs
longer hosts a [] h = tt
longer hosts a (c ∷ cs) ((more, e), h) = (
  (more ++ (a ∷ []), sym (append_assoc c more (a ∷ [])) ∙ ap (λ l. l ++ (a ∷ [])) e),
  longer hosts a cs h,
)

last_call-nil : (cs : List (List Text)) → All (IsPrefix []) cs → last_call cs ≡ []
last_call-nil [] h = refl
last_call-nil ([] ∷ []) h = refl
last_call-nil ((x ∷ c) ∷ []) ((more, e), h) = absurd (ground (arith, e))
last_call-nil (c ∷ d ∷ cs) h = last_call-nil (d ∷ cs) h.1

join_hosts-Calls :
    (m : ClusterMdns) (hosts : List Text)
    → m.join ≡ hosts
    → All (IsPrefix hosts) m.joined
    → Calls (join_hosts m hosts)
join_hosts-Calls m [] e p = record {
  prefixes = rw e p;
  told = inr (last_call-nil m.joined p ∙ sym e);
}
join_hosts-Calls m (x ∷ xs) e p = record {
  prefixes = rw e (All-snoc (IsPrefix (x ∷ xs)) m.joined (x ∷ xs) p ([], append-nil (x ∷ xs)));
  told = inr (last_call-snoc m.joined (x ∷ xs) ∙ sym e);
}

add_host-Calls :
    (m : ClusterMdns) (a : Text) (o : Option (Unit {0})) → Calls m → Calls (add_host m a o)
add_host-Calls m a none c = record {
  prefixes = longer m.join a m.joined c.prefixes;
  told = inl refl;
}
add_host-Calls m a (some u) c = record { prefixes = c.prefixes; told = c.told }

run_one-Calls : (m : ClusterMdns) (g : Signal) → Calls m → Calls (run_one m g)
unfolding run_one
run_one-Calls m (on_result a) c = add_host-Calls m a (get m.seen a) c
run_one-Calls m on_wait c =
    if_both Calls m.waiting (join_hosts-Calls (record m { waiting = false }) m.join refl c.prefixes)
      (record { prefixes = c.prefixes; told = c.told })
run_one-Calls m on_poll c = record { prefixes = c.prefixes; told = c.told }

run-Calls : (m : ClusterMdns) (gs : List Signal) → Calls m → Calls (run m gs)
unfolding run
run-Calls m [] c = c
run-Calls m (g ∷ gs) c = run-Calls (run_one m g) gs (run_one-Calls m g c)

abbrev is_found : Option (Unit {0}) → Bool
is_found none = false
is_found (some u) = true

-- The map holds the known addresses.
abbrev Agrees : ClusterMdns → List Text → Type 0
Agrees m known = (b : Text) → is_found (get m.seen b) ≡ is_in b known

join_hosts-join : (m : ClusterMdns) (hosts : List Text) → (join_hosts m hosts).join ≡ m.join
join_hosts-join m [] = refl
join_hosts-join m (x ∷ xs) = refl

join_hosts-seen : (m : ClusterMdns) (hosts : List Text) → (join_hosts m hosts).seen ≡ m.seen
join_hosts-seen m [] = refl
join_hosts-seen m (x ∷ xs) = refl

Agrees-put :
    (m : ClusterMdns) (a : Text) (known : List Text)
    → Agrees m known
    → Agrees (add_host m a none) (a ∷ known)
Agrees-put m a known h b = ground (arith, get-put m.seen a b tt, h b)

-- The state after a result, where the rest of the loop is known.
result-join :
    (gs : List Signal) (m : ClusterMdns) (known : List Text) (a : Text) (o : Option (Unit {0}))
    → get m.seen a ≡ o
    → Agrees m known
    → ((m : ClusterMdns) (known : List Text)
        → Agrees m known
        → (run m gs).join ≡ m.join ++ new_hosts known gs)
    → (run (add_host m a o) gs).join ≡ m.join ++ new_hosts known (on_result a ∷ gs)
result-join gs m known a none e h later =
    let new : is_in a known ≡ false = ground (arith, h a, e) in
    rw new (
      later (add_host m a none) (a ∷ known) (Agrees-put m a known h)
      ∙ append_assoc m.join (a ∷ []) (new_hosts (a ∷ known) gs))
result-join gs m known a (some u) e h later =
    let old : is_in a known ≡ true = ground (arith, h a, e) in rw old (later m known h)

run-join :
    (gs : List Signal) (m : ClusterMdns) (known : List Text)
    → Agrees m known
    → (run m gs).join ≡ m.join ++ new_hosts known gs
unfolding run run_one
run-join [] m known h = sym (append-nil m.join)
run-join (on_poll ∷ gs) m known h = run-join gs (run_one m on_poll) known h
run-join (on_wait ∷ gs) m known h =
    let told = join_hosts (record m { waiting = false }) m.join in
    if_both (λ (z : ClusterMdns). (run z gs).join ≡ m.join ++ new_hosts known gs) m.waiting
      (run-join gs told known (λ b.
          ap (λ s. is_found (get s b)) (join_hosts-seen (record m { waiting = false }) m.join)
          ∙ h b)
        ∙ ap (λ l. l ++ new_hosts known gs) (join_hosts-join (record m { waiting = false }) m.join))
      (run-join gs m known h)
run-join (on_result a ∷ gs) m known h = result-join gs m known a (get m.seen a) refl h (run-join gs)

-- What the discovery has joined after any signals.
pub record Discovers (own : Text) (gs : List Signal) (m : ClusterMdns) : Type 0 where
  pub found : m.join ≡ new_hosts (own ∷ []) gs
  pub others : All (λ (a : Text). a ≢ own) m.join
  pub calls : Calls m

is_in-tail : (a b : Text) (known : List Text) → is_in a known ≡ true → is_in a (b ∷ known) ≡ true
is_in-tail a b known h = ground (arith, h)

new_hosts-others :
    (own : Text) (known : List Text) (gs : List Signal)
    → is_in own known ≡ true
    → All (λ (a : Text). a ≢ own) (new_hosts known gs)
new_hosts-others own known [] h = tt
new_hosts-others own known (on_wait ∷ gs) h = new_hosts-others own known gs h
new_hosts-others own known (on_poll ∷ gs) h = new_hosts-others own known gs h
new_hosts-others own known (on_result a ∷ gs) h =
    if_lem (All (λ (a : Text). a ≢ own)) (is_in a known) (λ _. new_hosts-others own known gs h)
      (λ new. (
        λ e. cc (new, subst (λ b. is_in b known ≡ true) (sym e) h),
        new_hosts-others own (a ∷ known) gs (is_in-tail own a known h),
      ))

-- The discovery finds each host of the cluster once, at its first result, and never the node itself. Every call
-- of `Join` is given the first ones of the hosts found, and the last call all of them, unless the timer for
-- the next call runs.
pub run_lem :
    (name own : Text) (gs : List Signal) → Discovers own gs (run (new_cluster_mdns name own) gs)
unfolding new_cluster_mdns put get
run_lem name own gs =
    let start = new_cluster_mdns name own in
    let found = run-join gs start (own ∷ []) (λ b. ground arith) in
    record {
      found = found;
      others =
          subst (All (λ (a : Text). a ≢ own)) (sym found)
            (new_hosts-others own (own ∷ []) gs (ground (arith, text_eq_refl own)));
      calls = run-Calls start gs (record { prefixes = tt; told = inr refl });
    }
