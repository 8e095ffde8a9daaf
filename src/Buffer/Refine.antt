-- ===== src/Buffer/Refine.antt =====
-- One `addItem` of buffer.go against the full history.
use cserf.Prelude.{
  ℕ, ◌<◌, ◌≡◌, refl, sym, subst, true, false, Option, none, some, List, [], ◌∷◌, ◌++◌, arith,
  length, set, length-set, All, All-snoc, Bool-cases, inl, inr,
}
use cserf.Buffer.{
  LItem, LGroupItem, LBuffer, has_item, is_too_old, slot, group_at, is_ltime_new, add_new_ltime,
  join_group, add_item, add,
}
use cserf.Buffer.History
use cserf.Buffer.History.{has_item-append, has_item-singleton}
use cserf.Buffer.Agree.{Refines, known_in, write_refines, same_time, new_unseen, Fits-here}

-- What one call returns, against the history.
pub record Adds (clock : ℕ) (b : LBuffer) (seen : List LItem) (item : LItem) : Type 0 where
  pub after : LBuffer
  pub size : length after ≡ length b
  pub returns :
      add_item b clock item ≡ some ((History.add_item (length b) seen clock item).0, after)
  pub refines : Refines clock after (History.add_item (length b) seen clock item).1

module _ {clock : ℕ} {b : LBuffer} {seen : List LItem} (r : Refines clock b seen) (item : LItem)
    (lt : item.ltime < clock) where
  refuse_old : is_too_old (length b) clock item ≡ true → Adds clock b seen item
  unfolding add_item History.add_item
  refuse_old old = record { after = b; size = refl; returns = rw old; refines = rw old r }

  accept_new :
      is_too_old (length b) clock item ≡ false
      → is_ltime_new (group_at b item.ltime) item.ltime ≡ true
      → Adds clock b seen item
  unfolding add_item History.add_item add_new_ltime
  accept_new fresh new = record {
    after = set b (slot b item.ltime) (some only);
    size = length-set b (slot b item.ltime) (some only);
    returns = ground (arith, r.nonempty, new_unseen r item fresh new);
    refines =
        rw (fresh, new_unseen r item fresh new)
          (write_refines r item only fresh lt refl (refl, tt) know);
  }
    where
      only : LGroupItem
      only = record { items = item ∷ []; ltime = item.ltime }

      IsNew : ℕ → Type 0
      IsNew t = is_ltime_new (group_at b t) t ≡ true

      know :
          (x : LItem)
          → x.ltime ≡ item.ltime
          → is_too_old (length b) clock x ≡ false
          → has_item only.items x ≡ has_item (seen ++ (item ∷ [])) x
      know x e fresh_x =
          rw (has_item-append, has_item-singleton, new_unseen r x fresh_x (subst IsNew (sym e) new))

  module _ (g : LGroupItem) (found : group_at b item.ltime ≡ some g)
      (fresh : is_too_old (length b) clock item ≡ false)
      (old : is_ltime_new (some g) item.ltime ≡ false) where
    -- The group and the history agree on the items of its time.
    has_item-group :
        (x : LItem)
        → x.ltime ≡ item.ltime
        → is_too_old (length b) clock x ≡ false
        → has_item g.items x ≡ has_item seen x
    unfolding known_in
    has_item-group x e fresh_x = ground (
      arith,
      r.agree x fresh_x,
      subst (λ t. group_at b t ≡ some g) (sym e) found,
      same_time r item g found fresh old,
    )

    refuse_known : has_item seen item ≡ true → Adds clock b seen item
    unfolding add_item History.add_item join_group
    refuse_known dup = record {
      after = b;
      size = refl;
      returns = ground (arith, r.nonempty, found, old, has_item-group item refl fresh);
      refines = rw (fresh, dup) r;
    }

    accept_more : has_item seen item ≡ false → Adds clock b seen item
    unfolding add_item History.add_item join_group
    accept_more unseen = record {
      after = set b (slot b item.ltime) (some (add g item));
      size = length-set b (slot b item.ltime) (some (add g item));
      returns = ground (arith, r.nonempty, found, old, has_item-group item refl fresh);
      refines = rw (fresh, unseen) (write_refines r item (add g item) fresh lt time own_after know);
    }
      where
        time : g.ltime ≡ item.ltime
        time = same_time r item g found fresh old

        own_after : All (λ (x : LItem). x.ltime ≡ g.ltime) (g.items ++ (item ∷ []))
        own_after = All-snoc _ g.items item (Fits-here r item g found).own (sym time)

        know :
            (x : LItem)
            → x.ltime ≡ item.ltime
            → is_too_old (length b) clock x ≡ false
            → has_item (g.items ++ (item ∷ [])) x ≡ has_item (seen ++ (item ∷ [])) x
        know x e fresh_x = rw (has_item-append, has_item-append, has_item-group x e fresh_x)

  -- One call of `addItem`, with a clock past the item, does what the full history does.
  pub add_item-Adds : Adds clock b seen item
  add_item-Adds = elim (Bool-cases (is_too_old (length b) clock item)) [
    | inl old ↦ refuse_old old
    | inr fresh ↦ in_slot (group_at b item.ltime) refl fresh
  ]
    where
      in_slot :
          (o : Option LGroupItem)
          → group_at b item.ltime ≡ o
          → is_too_old (length b) clock item ≡ false
          → Adds clock b seen item
      in_slot none e fresh = accept_new fresh (rw e (unfold is_ltime_new in refl))
      in_slot (some g) e fresh = elim (Bool-cases (is_ltime_new (some g) item.ltime)) [
        | inl new ↦ accept_new fresh (rw e new)
        | inr old ↦ elim (Bool-cases (has_item seen item)) [
          | inl dup ↦ refuse_known g e fresh old dup
          | inr unseen ↦ accept_more g e fresh old unseen
        ]
      ]
