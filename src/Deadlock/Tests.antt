-- ===== src/Deadlock/Tests.antt =====
-- The deadlock detector on small graphs.
use pynchronize.Prelude.{◌≡◌, refl, true, false, [], ◌∷◌, string_key, contains, insert, discard}
use pynchronize.Prelude.Dict
use pynchronize.Deadlock.{
  WaitGraph, cycle, clear, add_edge, add_wait, remove_wait, drop_holder, remove_holder, from_index,
  dfs, dfs_all, detect_cycle, has_deadlock, has_deadlock_from,
}
use pynchronize.Deadlock.Detects.{Verdict, Answer, detect_cycle-Verdict, has_deadlock-Answer}
use pynchronize.Deadlock.Edges.{waits, waits-add_wait, waits-remove_holder}

unfoldable pub detector : Unit {0}
unfolding add_edge add_wait remove_wait drop_holder remove_holder from_index dfs dfs_all
    detect_cycle has_deadlock has_deadlock_from contains insert discard Dict.get Dict.assign
    Dict.remove
detector = tt

abbrev triangle : WaitGraph
triangle = ("a", "b" ∷ []) ∷ ("b", "c" ∷ []) ∷ ("c", "a" ∷ []) ∷ []

triangle_cycle : detect_cycle triangle "b" ≡ cycle ("b" ∷ "c" ∷ "a" ∷ "b" ∷ [])
unfolding detector
triangle_cycle = refl

-- b is on no cycle, but leads to one
leads_to_cycle :
    detect_cycle (("b", "c" ∷ []) ∷ ("c", "a" ∷ []) ∷ ("a", "c" ∷ []) ∷ []) "b"
    ≡ cycle ("c" ∷ "a" ∷ "c" ∷ [])
unfolding detector
leads_to_cycle = refl

released : has_deadlock (remove_holder "c" triangle) ≡ clear []
unfolding detector
released = refl

built : add_wait "c" ("a" ∷ "c" ∷ []) (("a", "b" ∷ []) ∷ ("b", "c" ∷ []) ∷ []) ≡ triangle
unfolding detector
built = refl

detect_cycle-Verdict_example : Verdict triangle "b" (detect_cycle triangle "b")
detect_cycle-Verdict_example = detect_cycle-Verdict triangle "b"

has_deadlock-Answer_example : Answer triangle (has_deadlock triangle)
has_deadlock-Answer_example = has_deadlock-Answer triangle

waits-add_wait_example : waits (add_wait "c" ("a" ∷ []) triangle) "c" "a" ≡ true
unfolding detector
waits-add_wait_example = waits-add_wait "c" ("a" ∷ []) triangle "c" "a"

waits-remove_holder_example : waits (remove_holder "c" triangle) "b" "c" ≡ false
unfolding detector
waits-remove_holder_example = waits-remove_holder "c" triangle "b" "c" (refl, (refl, (refl, tt)))
