-- ===== src/Buffer/Agree.antt =====
-- How the ring of buffer.go stands to the full history, and what a write to a slot does to it.
use native.Mathlib.Nat.{div-add-mod, mod-lt}
use cserf.Prelude.{
  ℕ, ◌+◌, ◌%◌, ◌≤◌, ◌<◌, ◌≡◌, ◌≢◌, refl, sym, ap, subst, Bool, true, false, Option, none, some,
  List, [], ◌∷◌, ◌++◌, arith, nat_eq, length, get_or, set, length-set, replicate, length-replicate,
  get_or-replicate, get_or-set_self, get_or-set_ne, ℕ_discrete, All, if◌then◌else◌,
}
use cserf.Buffer.{
  LItem, LGroupItem, LBuffer, equal, has_item, is_too_old, slot, group_at, is_ltime_new,
}
use cserf.Buffer.History.{has_item-append}

-- Whether a slot holds the item among those of its time.
unfoldable pub known_in : Option LGroupItem → LItem → Bool
known_in none x = false
known_in (some g) x = if nat_eq g.ltime x.ltime then has_item g.items x else false

-- Every group stands in the slot of its time, which the clock has passed, and all its items have
-- that time.
pub record Fits (clock size i : ℕ) (g : LGroupItem) : Type 0 where
  pub home : g.ltime % size ≡ i
  pub past : g.ltime < clock
  pub own : All (λ (x : LItem). x.ltime ≡ g.ltime) g.items

-- The buffer and the history agree on every item that is not too old.
pub record Refines (clock : ℕ) (b : LBuffer) (seen : List LItem) : Type 0 where
  pub nonempty : 0 < length b
  pub fits : (i : ℕ) (g : LGroupItem) → get_or b i none ≡ some g → Fits clock (length b) i g
  pub agree :
      (x : LItem)
      → is_too_old (length b) clock x ≡ false
      → known_in (group_at b x.ltime) x ≡ has_item seen x

-- Different times of one slot are at least the size of the ring apart.
apart : (n a c : ℕ) → 0 < n → a % n ≡ c % n → a < c → a + n ≤ c
apart n a c pos e lt = grind (arith, div-add-mod a n, div-add-mod c n)

module _ {clock : ℕ} {b : LBuffer} {seen : List LItem} (r : Refines clock b seen)
    (item : LItem) where
  pub Fits-here :
      (g : LGroupItem)
      → group_at b item.ltime ≡ some g
      → Fits clock (length b) (item.ltime % length b) g
  Fits-here g e = r.fits (item.ltime % length b) g e

  -- A slot whose group is not older holds exactly the time of an item that is not too old.
  pub same_time :
      (g : LGroupItem)
      → group_at b item.ltime ≡ some g
      → is_too_old (length b) clock item ≡ false
      → is_ltime_new (some g) item.ltime ≡ false
      → g.ltime ≡ item.ltime
  unfolding is_too_old is_ltime_new
  same_time g e fresh old = ground (
    arith,
    (Fits-here g e).home,
    (Fits-here g e).past,
    apart (length b) item.ltime g.ltime r.nonempty,
  )

  -- An item for a slot of an older time is in no history.
  pub new_unseen :
      is_too_old (length b) clock item ≡ false
      → is_ltime_new (group_at b item.ltime) item.ltime ≡ true
      → has_item seen item ≡ false
  unfolding is_ltime_new known_in
  new_unseen fresh new = rw (← r.agree item fresh) (go (group_at b item.ltime) new)
    where
      go : (o : Option LGroupItem) → is_ltime_new o item.ltime ≡ true → known_in o item ≡ false
      go none h = refl
      go (some g) h = ground arith

  unequal : (x : LItem) → x.ltime ≢ item.ltime → equal item x ≡ false
  unfolding equal
  unequal x ne = ground arith

  -- Within a slot, an item of another time that is not too old was never seen.
  other_time :
      (x : LItem)
      → is_too_old (length b) clock item ≡ false
      → item.ltime < clock
      → is_too_old (length b) clock x ≡ false
      → x.ltime % length b ≡ item.ltime % length b
      → x.ltime ≢ item.ltime
      → has_item seen x ≡ false
  unfolding is_too_old known_in
  other_time x fresh lt fresh_x same ne = rw (← r.agree x fresh_x) (go (group_at b x.ltime) refl)
    where
      go : (o : Option LGroupItem) → group_at b x.ltime ≡ o → known_in o x ≡ false
      go none h = refl
      go (some g) h = ground (
        arith,
        (r.fits (x.ltime % length b) g h).past,
        apart (length b) x.ltime item.ltime r.nonempty,
        apart (length b) item.ltime x.ltime r.nonempty,
      )

-- A group `h` of the item's time is written, which knows what the slot knew and the item.
module _ {clock : ℕ} {b : LBuffer} {seen : List LItem} (r : Refines clock b seen) (item : LItem)
    (h : LGroupItem) (fresh : is_too_old (length b) clock item ≡ false) (lt : item.ltime < clock)
    (time : h.ltime ≡ item.ltime) (own : All (λ (x : LItem). x.ltime ≡ h.ltime) h.items)
    (know : (x : LItem)
      → x.ltime ≡ item.ltime
      → is_too_old (length b) clock x ≡ false
      → has_item h.items x ≡ has_item (seen ++ (item ∷ [])) x) where
  in_range : item.ltime % length b < length b
  in_range = mod-lt _ r.nonempty

  same_group :
      (i : ℕ) (g : LGroupItem)
      → item.ltime % length b ≡ i
      → get_or (set b (item.ltime % length b) (some h)) i none ≡ some g
      → h ≡ g
  same_group i g p e = cc (get_or-set_self b (item.ltime % length b) (some h) none in_range, p, e)

  Fits-new : (i : ℕ) → item.ltime % length b ≡ i → Fits clock (length b) i h
  Fits-new i p = record { home = cc (time, p); past = omega arith; own = own }

  Fits-after :
      (i : ℕ) (g : LGroupItem)
      → get_or (set b (item.ltime % length b) (some h)) i none ≡ some g
      → Fits clock (length b) i g
  Fits-after i g e = elim (ℕ_discrete (item.ltime % length b) i) [
    | yes p ↦ subst (λ z. Fits clock (length b) i z) (same_group i g p e) (Fits-new i p)
    | no p ↦ r.fits i g (rw (get_or-set_ne b (item.ltime % length b) i (some h) none p) at e)
  ]

  agree_here :
      (x : LItem)
      → is_too_old (length b) clock x ≡ false
      → item.ltime % length b ≡ x.ltime % length b
      → known_in (some h) x ≡ has_item (seen ++ (item ∷ [])) x
  unfolding known_in
  agree_here x fresh_x p = ground (
    arith,
    know x,
    has_item-append seen item x,
    unequal r item x,
    other_time r item x fresh lt fresh_x (sym p),
  )

  agree_there :
      (x : LItem)
      → is_too_old (length b) clock x ≡ false
      → item.ltime % length b ≢ x.ltime % length b
      → known_in (group_at b x.ltime) x ≡ has_item (seen ++ (item ∷ [])) x
  agree_there x fresh_x p =
      rw
        (
          has_item-append,
          ← r.agree x fresh_x,
          unequal r item x (λ e. p (ap (λ t. t % length b) (sym e))),
        )
        (ground arith)

  agree_after :
      (x : LItem)
      → is_too_old (length b) clock x ≡ false
      → known_in (group_at (set b (slot b item.ltime) (some h)) x.ltime) x
        ≡ has_item (seen ++ (item ∷ [])) x
  agree_after x fresh_x = elim (ℕ_discrete (item.ltime % length b) (x.ltime % length b)) [
    | yes p ↦
        rw (length-set, ← p, get_or-set_self b (item.ltime % length b) (some h) none in_range)
          (agree_here x fresh_x p)
    | no p ↦
        rw
          (length-set, get_or-set_ne b (item.ltime % length b) (x.ltime % length b) (some h) none p)
          (agree_there x fresh_x p)
  ]

  -- The write does what the history does when it accepts the item.
  pub write_refines : Refines clock (set b (slot b item.ltime) (some h)) (seen ++ (item ∷ []))
  write_refines = record {
    nonempty = rw length-set r.nonempty;
    fits = λ i g e. rw length-set (Fits-after i g e);
    agree = λ x fresh_x. agree_after x (rw length-set at fresh_x);
  }

abbrev empty_slot : Option LGroupItem
empty_slot = none

-- A new buffer has accepted nothing.
pub new_refines : (clock size : ℕ) → 0 < size → Refines clock (replicate size none) []
unfolding known_in has_item
new_refines clock size pos = record {
  nonempty = omega (arith, length-replicate size empty_slot);
  fits = λ i g e. absurd (ground (arith, get_or-replicate size i empty_slot));
  agree = λ x fresh.
      ground
        (arith, get_or-replicate size (x.ltime % length (replicate size empty_slot)) empty_slot);
}
