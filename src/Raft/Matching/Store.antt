-- ===== src/Raft/Matching/Store.antt =====
-- src/consensus/raft.py: what the loop of `_handle_append_entries` makes of a log.
use pynchronize.Prelude.{
  ℕ, suc, ◌≤◌, ◌≡◌, ◌⊎◌, inl, inr, refl, sym, ap, ◌∙◌, true, Bool-cases, some, List, [], ◌∷◌, ◌++◌,
  arith, length, take, get_elem?, subst, eqb, leb, if◌then◌else◌,
}
use mathlib.Core.List.{append-nil}
use pynchronize.Raft.Node.{LogEntry}
use pynchronize.Raft.Entries.{store_entry, store_entries}
use pynchronize.Raft.Matching.Lists.{
  length-take, take_all, append_one, take-suc, get_elem?-lt, get_elem?-append, lt_of_get_elem?,
}

module _ {C : Type 0} where
  -- Every entry has its place in the log, from 1, as its index.
  abbrev pub Indexed : List (LogEntry C) → Type 0
  Indexed l = (k : ℕ) (e : LogEntry C) → get_elem? l k ≡ some e → e.index ≡ suc k

  -- Where two logs have an entry of one term at one place, they agree up to that place.
  abbrev pub Matched : List (LogEntry C) → List (LogEntry C) → Type 0
  Matched g l =
      (k : ℕ) (e f : LogEntry C)
      → get_elem? g k ≡ some e
      → get_elem? l k ≡ some f
      → e.term ≡ f.term
      → take (suc k) g ≡ take (suc k) l

  index_at :
      (l g es : List (LogEntry C)) (e : LogEntry C)
      → Indexed l
      → g ++ e ∷ es ≡ l
      → e.index ≡ suc (length g)
  index_at l g es e x p = x (length g) e (rw (← p) (get_elem?-append g es e))

  store_entry_new :
      (e : LogEntry C) (g : List (LogEntry C))
      → e.index ≡ suc (length g)
      → store_entry e g ≡ some (g ++ e ∷ [])
  unfolding store_entry
  store_entry_new e g h = ground (arith, h)

  store_entry_old :
      (e x : LogEntry C) (g : List (LogEntry C)) (k : ℕ)
      → e.index ≡ suc k
      → suc k ≤ length g
      → get_elem? g k ≡ some x
      → store_entry e g ≡ (if eqb x.term e.term then some g else some (take k g ++ e ∷ []))
  unfolding store_entry
  store_entry_old e x g k h le at = rw h (ground (arith, at))

  store_entries-cons :
      (e : LogEntry C) (es g g' : List (LogEntry C))
      → store_entry e g ≡ some g'
      → store_entries (e ∷ es) g ≡ store_entries es g'
  unfolding store_entries
  store_entries-cons e es g g' h = rw (h, store_entries) refl

  -- Entries that follow the log are appended.
  store_entries-append :
      (es g l : List (LogEntry C)) → g ++ es ≡ l → Indexed l → store_entries es g ≡ (l, true)
  unfolding store_entries
  store_entries-append [] g l p x = ap (λ t. (t, true)) (sym (append-nil g) ∙ p)
  store_entries-append (e ∷ es) g l p x =
      store_entries-cons e es g (g ++ e ∷ []) (store_entry_new e g (index_at l g es e x p))
      ∙ store_entries-append es (g ++ e ∷ []) l (append_one g es e ∙ p) x

  get_elem?-split :
      (k : ℕ) (l es : List (LogEntry C)) (e : LogEntry C)
      → k ≤ length l
      → take k l ++ e ∷ es ≡ l
      → get_elem? l k ≡ some e
  get_elem?-split k l es e kl split =
      subst (λ j. get_elem? l j ≡ some e) (length-take k l kl)
        (subst (λ t. get_elem? t (length (take k l)) ≡ some e) split
          (get_elem?-append (take k l) es e))

  -- Entries of a log `l` that begin where `g` agrees with `l` leave `g`, or make it `l`; none of them
  -- raises.
  pub store_entries-merge :
      (es g l : List (LogEntry C)) (k : ℕ)
      → k ≤ length g
      → k ≤ length l
      → take k g ≡ take k l
      → take k l ++ es ≡ l
      → Indexed l
      → Matched g l
      → (store_entries es g ≡ (g, true)) ⊎ (store_entries es g ≡ (l, true))
  unfolding store_entries
  store_entries-merge [] g l k kg kl same split x m = inl refl
  store_entries-merge (e ∷ es) g l k kg kl same split x m =
      elim (Bool-cases (leb (suc k) (length g))) [
        | inr short ↦
            let whole : g ≡ take k l = sym (take_all k g (ground arith)) ∙ same in
            inr (store_entries-append (e ∷ es) g l (ap (λ t. t ++ e ∷ es) whole ∙ split) x)
        | inl long ↦
            let (y, at) = get_elem?-lt k g (ground arith) in
            old y (ground arith) at (
              store_entries-merge es g l (suc k) (ground arith)
                (lt_of_get_elem? k l e (get_elem?-split k l es e kl split)))
      ]
    where
      here : get_elem? l k ≡ some e
      here = get_elem?-split k l es e kl split

      index : e.index ≡ suc k
      index = x k e here

      rest_of : take (suc k) l ++ es ≡ l
      rest_of = ap (λ t. t ++ es) (take-suc k l e here) ∙ append_one (take k l) es e ∙ split

      old :
          (y : LogEntry C)
          → suc k ≤ length g
          → get_elem? g k ≡ some y
          → (take (suc k) g ≡ take (suc k) l
              → take (suc k) l ++ es ≡ l
              → Indexed l
              → Matched g l
              → (store_entries es g ≡ (g, true)) ⊎ (store_entries es g ≡ (l, true)))
          → (store_entries (e ∷ es) g ≡ (g, true)) ⊎ (store_entries (e ∷ es) g ≡ (l, true))
      old y le at rest = elim (Bool-cases (eqb y.term e.term)) [
        | inl equal ↦
            let kept : store_entry e g ≡ some g =
              store_entry_old e y g k index le at ∙ rw equal refl in
            rw (store_entries-cons e es g g kept)
              (rest (m k y e at here (ground arith)) rest_of x m)
        | inr other ↦
            let cut : store_entry e g ≡ some (take k l ++ e ∷ []) =
              store_entry_old e y g k index le at ∙ rw (other, same) refl in
            inr (
              store_entries-cons e es g (take k l ++ e ∷ []) cut
              ∙ store_entries-append es (take k l ++ e ∷ []) l (append_one (take k l) es e ∙ split)
                  x)
      ]
