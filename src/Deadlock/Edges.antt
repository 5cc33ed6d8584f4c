-- ===== src/Deadlock/Edges.antt =====
-- What the updates of the wait-for graph do to its edges.
use pynchronize.Prelude.{
  ◌≡◌, refl, Bool, true, false, not, ◌&&◌, ◌||◌, List, [], ◌∷◌, String, string_key, contains,
  insert, discard, same→eq, arith, inl, inr, ◌==◌, contains-insert, contains-discard, if◌then◌else◌,
  ◌⊎◌,
}
use pynchronize.Prelude.Dict
use pynchronize.Prelude.Dict.{UniqueKeys, keys, get-assign, get-remove, contains-keys}
use pynchronize.Deadlock.{
  WaitGraph, neighbors, add_edge, add_wait, remove_wait, drop_holder, remove_holder,
}

-- whether `a` waits for `b`
abbrev pub waits : WaitGraph → String → String → Bool
waits g a b = contains b (neighbors g a)

waits-add_edge :
    (w h : String) (g : WaitGraph) (a b : String)
    → waits (add_edge w h g) a b ≡ (waits g a b || (w == a && (h == b && not (h == w))))
unfolding add_edge contains
waits-add_edge w h g a b = ground (
  arith,
  get-assign a w (insert h (neighbors g w)) g,
  contains-insert b h (neighbors g w),
  string_key.same_iff w a,
)

-- `add_wait(w, hs)` adds exactly the edges from `w` to the members of `hs` other than `w` itself.
pub waits-add_wait :
    (w : String) (hs : List String) (g : WaitGraph) (a b : String)
    → waits (add_wait w hs g) a b ≡ (waits g a b || (w == a && (contains b hs && not (b == w))))
unfolding add_wait contains
waits-add_wait w [] g a b = ground arith
waits-add_wait w (h ∷ hs) g a b = ground (
  arith,
  waits-add_wait w hs (add_edge w h g) a b,
  waits-add_edge w h g a b,
  string_key.same_iff h b,
  string_key.same_iff h w,
  string_key.same_iff b w,
)

-- `remove_wait(w)` removes exactly the edges from `w`.
pub waits-remove_wait :
    (w : String) (g : WaitGraph) (a b : String)
    → waits (remove_wait w g) a b ≡ (not (w == a) && waits g a b)
unfolding remove_wait contains
waits-remove_wait w g a b = ground (arith, get-remove a w g)

List-cases : {A : Type 0} (xs : List A) → (xs ≡ []) ⊎ ((y : A) × (ys : List A) × (xs ≡ y ∷ ys))
List-cases [] = inl refl
List-cases (y ∷ ys) = inr (y, ys, refl)

-- The edges of an entry and of the entries behind it.
waits-cons :
    (x : String) (ws : List String) (g : WaitGraph) (a b : String)
    → waits ((x, ws) ∷ g) a b ≡ (if x == a then contains b ws else waits g a b)
unfolding Dict.get contains
waits-cons x ws g a b = ground arith

waits_absent : (g : WaitGraph) (a b : String) → contains a (keys g) ≡ false → waits g a b ≡ false
unfolding contains
waits_absent g a b h = ground (arith, contains-keys a g)

waits-drop_holder :
    (h x : String) (ws : List String) (g : WaitGraph) (a b : String)
    → (x == a ≡ true → waits g a b ≡ false)
    → waits (drop_holder h x ws g) a b
      ≡ (if x == a then (not (h == b) && contains b ws) else waits g a b)
unfolding drop_holder contains
waits-drop_holder h x ws g a b gone = elim (List-cases (discard h ws)) [
  | inl e ↦ rw (e, drop_holder) (ground (arith, gone, contains-discard b h ws, e))
  | inr (y, ys, e) ↦
      rw (e, drop_holder) (ground (arith, contains-discard b h ws, e, waits-cons x (y ∷ ys) g a b))
]

-- `remove_holder(h)` removes exactly the edges to `h`.
pub waits-remove_holder :
    (h : String) (g : WaitGraph) (a b : String)
    → UniqueKeys g
    → waits (remove_holder h g) a b ≡ (not (h == b) && waits g a b)
unfolding remove_holder contains Dict.get
waits-remove_holder h [] a b u = ground arith
waits-remove_holder h ((x, ws) ∷ g) a b u = ground (
  arith,
  waits-drop_holder h x ws (remove_holder h g) a b (λ (p : x == a ≡ true).
      gone (waits-remove_holder h g a b u.1) (waits_absent g a b (rw (same→eq x a p) at u.0))),
  waits-remove_holder h g a b u.1,
  waits-cons x ws g a b,
)
  where
    gone :
        waits (remove_holder h g) a b ≡ (not (h == b) && waits g a b)
        → waits g a b ≡ false
        → waits (remove_holder h g) a b ≡ false
    gone e f = ground arith
