-- ===== src/Raft/Matching/Records.antt =====
-- Logs all of whose entries are recorded, and how two of them relate.
use pynchronize.Prelude.{
  ℕ, zero, suc, ◌≤◌, ◌≡◌, ◌⊎◌, inl, inr, refl, sym, ap, ◌∙◌, true, Option, none, some, List, [],
  ◌∷◌, ◌++◌, arith, length, take, drop, get_elem?, length-append, eqb, leb, Bool-cases, ◌||◌,
}
use mathlib.Core.Option.{some-injective}
use pynchronize.Raft.Node.{LogEntry, AppendEntries, get_log_entry}
use pynchronize.Raft.Entries.{store_entries, prev_matches, prev_ok}
use pynchronize.Raft.Leader.{term_or_zero}
use pynchronize.Raft.Cluster.{In}
use pynchronize.Raft.Matching.System.{Creation}
use pynchronize.Raft.Matching.Lists.{
  length-take, take_all, take-append, take-drop, get_elem?-lt, lt_of_get_elem?, get_elem?-append,
  get_elem?-take,
}
use pynchronize.Raft.Matching.Store.{Indexed, Matched, store_entries-merge}

module _ {C : Type 0} where
  abbrev pub whole : Creation C → List (LogEntry C)
  whole c = c.before ++ c.entry ∷ []

  -- Each prefix of the log was the log of a leader when it made the prefix's last entry.
  abbrev pub Recorded : List (Creation C) → List (LogEntry C) → Type 0
  Recorded cs l =
      (k : ℕ) → suc k ≤ length l → (c : Creation C) × In c cs × (whole c ≡ take (suc k) l)

  -- No term has two entries at one place.
  abbrev pub Unique : List (Creation C) → Type 0
  Unique cs =
      (c d : Creation C)
      → In c cs
      → In d cs
      → c.entry.term ≡ d.entry.term
      → length c.before ≡ length d.before
      → c ≡ d

  abbrev pub Places : List (Creation C) → Type 0
  Places cs = (c : Creation C) → In c cs → c.entry.index ≡ suc (length c.before)

  pub Recorded-more :
      (c : Creation C) (cs : List (Creation C)) (l : List (LogEntry C))
      → Recorded cs l
      → Recorded (c ∷ cs) l
  Recorded-more c cs l r k h = let (d, i, e) = r k h in (d, inr i, e)

  pub Recorded-nil : (cs : List (Creation C)) → Recorded cs []
  Recorded-nil cs k h = absurd (omega arith)

  -- A log with the entry that is recorded now.
  pub Recorded-append :
      (c : Creation C) (cs : List (Creation C)) → Recorded cs c.before → Recorded (c ∷ cs) (whole c)
  Recorded-append c cs r k h = elim (Bool-cases (leb (suc k) (length c.before))) [
    | inl old ↦
        let (d, i, e) = r k (ground arith) in
        (d, inr i, e ∙ sym (take-append (suc k) c.before (c.entry ∷ []) (ground arith)))
    | inr new ↦ (
      c,
      inl refl,
      sym (take_all (suc k) (whole c) (ground (arith, length-append c.before (c.entry ∷ []), h))),
    )
  ]

  -- The record of an entry.
  Recorded-at :
      (cs : List (Creation C)) (l : List (LogEntry C)) (k : ℕ) (e : LogEntry C)
      → Recorded cs l
      → get_elem? l k ≡ some e
      → (c : Creation C) × In c cs
        × (whole c ≡ take (suc k) l)
        × (c.entry ≡ e)
        × (length c.before ≡ k)
  Recorded-at cs l k e r at =
      let (c, i, w) = r k (lt_of_get_elem? k l e at) in
      let len : length c.before ≡ k = omega (
        arith,
        length-append c.before (c.entry ∷ []),
        ap length w,
        length-take (suc k) l (lt_of_get_elem? k l e at),
      ) in
      let found : some c.entry ≡ some e =
        sym (get_elem?-append c.before [] c.entry)
        ∙ ap (λ t. get_elem? t (length c.before)) w
        ∙ ap (get_elem? (take (suc k) l)) len
        ∙ get_elem?-take k (suc k) l (omega arith)
        ∙ at in
      (c, i, w, some-injective c.entry e found, len)

  pub Recorded-Indexed :
      (cs : List (Creation C)) (l : List (LogEntry C)) → Recorded cs l → Places cs → Indexed l
  Recorded-Indexed cs l r p k e at =
      let (c, i, w, x, len) = Recorded-at cs l k e r at in
      ap (λ (f : LogEntry C). f.index) (sym x) ∙ p c i ∙ ap suc len

  -- Two recorded logs agree up to every place where they have entries of one term.
  pub Recorded-Matched :
      (cs : List (Creation C)) (g l : List (LogEntry C))
      → Recorded cs g
      → Recorded cs l
      → Unique cs
      → Matched g l
  Recorded-Matched cs g l rg rl u k e f ge lf t =
      let (c, i, w, x, len) = Recorded-at cs g k e rg ge in
      let (d, j, v, y, len') = Recorded-at cs l k f rl lf in
      let same : c ≡ d =
        u c d i j (ap (λ (f : LogEntry C). f.term) x ∙ t ∙ sym (ap (λ (f : LogEntry C). f.term) y))
          (len ∙ sym len') in
      sym w ∙ ap whole same ∙ v

  -- What a message says of its sender's log.
  abbrev pub Tells : AppendEntries C → List (LogEntry C) → Type 0
  Tells m l =
      (m.entries ≡ [])
      ⊎ ((suc m.prev_log_index ≤ length l)
          × (m.entries ≡ drop m.prev_log_index l)
          × (m.prev_log_term ≡ term_or_zero (get_log_entry l m.prev_log_index)))

  prev_agrees :
      (p t : ℕ) (g l : List (LogEntry C))
      → (eqb p 0 || prev_ok (get_log_entry g p) t) ≡ true
      → suc p ≤ length l
      → t ≡ term_or_zero (get_log_entry l p)
      → Matched g l
      → (p ≤ length g) × (take p g ≡ take p l)
  unfolding prev_ok get_log_entry term_or_zero
  prev_agrees zero t g l ok le e m = (omega arith, refl)
  prev_agrees (suc p) t g l ok le e m =
      let (y, at) = get_elem?-lt p l (omega arith) in go (get_elem? g p) refl y at
    where
      go :
          (o : Option (LogEntry C))
          → get_elem? g p ≡ o
          → (y : LogEntry C) → get_elem? l p ≡ some y
          → (suc p ≤ length g) × (take (suc p) g ≡ take (suc p) l)
      go none n y at = absurd (ground (arith, n, ok))
      go (some x) n y at = (lt_of_get_elem? p g x n, m p x y n at (ground (arith, n, at, ok, e)))

  -- The entries of a message that the log accepts leave the log, or make it the sender's.
  pub store_entries-Recorded :
      (cs : List (Creation C)) (m : AppendEntries C) (g l : List (LogEntry C))
      → Recorded cs g
      → Recorded cs l
      → Unique cs
      → Places cs
      → Tells m l
      → prev_matches m g ≡ true
      → (g' : List (LogEntry C)) × (store_entries m.entries g ≡ (g', true)) × Recorded cs g'
  unfolding prev_matches store_entries
  store_entries-Recorded cs m g l rg rl u p (inl e) ok = (g, rw e refl, rg)
  store_entries-Recorded cs m g l rg rl u p (inr (le, e, t)) ok =
      let matched = Recorded-Matched cs g l rg rl u in
      let (kg, same) = prev_agrees m.prev_log_index m.prev_log_term g l ok le t matched in
      elim (store_entries-merge m.entries g l m.prev_log_index kg (omega arith) same
        (ap (λ r. take m.prev_log_index l ++ r) e ∙ take-drop m.prev_log_index l)
        (Recorded-Indexed cs l rl p) matched) [
          | inl kept ↦ (g, kept, rg)
          | inr sent ↦ (l, sent, rl)
        ]
