-- ===== src/Inactive/Tests.antt =====
-- The inactive members on small runs.
use cserf.Prelude.{◌≡◌, refl, true, [], ◌∷◌, ◌++◌, get, put, text_key, bytes, Text}
use cserf.Messages.{MemberNode}
use cserf.Inactive.{
  InactiveNodes, add_fail, add_left, add_left_batch, reap, is_marked, remove_from_list, find_index,
  swap, remove_timeouts, expired_nodes, remove_each, is_expired,
}
use cserf.Inactive.Count.{Test, count}
use cserf.Inactive.Index.{IsConsistent, IsIndexed-nil, add_fail-IsConsistent}
use cserf.Inactive.Reap.{both, stays, expired_or_none, reap_lem}

abbrev node : Text → MemberNode
node id = record { id = id; ip = []; port = 0; tags = [] }

abbrev a : MemberNode
a = node (bytes "a")

abbrev b : MemberNode
b = node (bytes "b")

abbrev c : MemberNode
c = node (bytes "c")

abbrev none_yet : InactiveNodes
none_yet = record {
  failed_timeout = 10;
  failed = [];
  failed_map = [];
  left_timeout = 20;
  left = [];
  left_map = [];
}

none_yet-IsConsistent : IsConsistent none_yet
none_yet-IsConsistent = record { failed = IsIndexed-nil; left = IsIndexed-nil }

abbrev two_failed : InactiveNodes
two_failed = add_fail (add_fail none_yet 3 a) 8 b

two_failed-IsConsistent : IsConsistent two_failed
two_failed-IsConsistent =
    add_fail-IsConsistent (add_fail none_yet 3 a) 8 b
      (add_fail-IsConsistent none_yet 3 a none_yet-IsConsistent)

reaps : (reap two_failed 14).0 ≡ a ∷ []
unfolding reap remove_timeouts expired_nodes remove_each remove_from_list find_index swap is_expired
    add_fail get put
reaps = refl

reap_lem_example :
    let (gone, i) = reap two_failed 14 in
    IsConsistent i
    × (gone
        ≡ expired_or_none 14 two_failed.failed_timeout two_failed.failed
          ++ expired_or_none 14 two_failed.left_timeout two_failed.left)
    × ((p : Test)
        → (count p i.failed ≡ count (both p (stays 14 two_failed.failed_timeout)) two_failed.failed)
          × (count p i.left ≡ count (both p (stays 14 two_failed.left_timeout)) two_failed.left))
reap_lem_example = reap_lem two_failed 14 two_failed-IsConsistent

a_marked : is_marked (add_left_batch none_yet 5 (a ∷ b ∷ [])).left_map a.id ≡ true
unfolding add_left_batch add_left get put
a_marked = refl
