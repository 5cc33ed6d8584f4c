-- ===== src/Queue/Reload.antt =====
-- src/nodes/queue_node.py: the messages of a file that the store loads.
use pynchronize.Prelude.{
  ℕ, Distinct-append, same→eq, ◌≡◌, refl, sym, ap, ◌∙◌, subst, true, false, Bool, Option, none,
  some, List, [], ◌∷◌, ◌++◌, String, string_key, map, Distinct, All, ◌==◌, if◌then◌else◌, arith,
  Bool-cases, inl, inr, same_refl, contains, contains-append, ◌||◌,
}
use mathlib.Core.List.{append-nil, append_assoc}
use mathlib.Core.Option.{some-injective}
use pynchronize.Json.{Json, find}
use pynchronize.Prelude.Dict
use pynchronize.Prelude.Dict.{Dict, get-assign, get-remove, keys, UniqueKeys}
use pynchronize.Queue.Store.{
  load, add, to_dict, from_dict, has_only, text_in, number_or, boolean_or, message_with, bodies_of,
  file_of, messages_in, elements_in, QueueMessage, MessageStore, queue_of, or_nil, save_queue,
  if_pending, load_message, load_messages, known, add_known,
}
use pynchronize.Queue.Delivery.{unacked}
use pynchronize.Queue.Publish.{unacked-assign_other, unacked-new, queue_of-assign}

-- the messages of a file that are not acknowledged
unfoldable pub pending_of : List QueueMessage → List QueueMessage
pending_of [] = []
pending_of (m ∷ ms) = let rest = pending_of ms in if m.acked then rest else m ∷ rest

unacked-known :
    (d : Dict String QueueMessage) (ids : List String) → unacked d ids ≡ pending_of (known ids d)
unfolding unacked known pending_of add_known if_pending
unacked-known d [] = refl
unacked-known d (id ∷ ids) = go (Dict.get id d) (unacked-known d ids)
  where
    go :
        (o : Option QueueMessage)
        → unacked d ids ≡ pending_of (known ids d)
        → ◌≡◌ {A = List QueueMessage}
            (elim (if_pending o) [ none ↦ unacked d ids | some m ↦ m ∷ unacked d ids ])
            (pending_of (add_known o (known ids d)))
    go none e = e
    go (some m) e = elim (Bool-cases m.acked) [ inl old ↦ simp (old, e) | inr new ↦ simp (new, e) ]

abbrev ids_of : List QueueMessage → List String
ids_of ms = map (λ (m : QueueMessage). m.id) ms

-- A file of one queue: its messages have different ids.
abbrev FileOf : String → List QueueMessage → Type 0
FileOf q ms = Distinct (ids_of ms) × All (λ (m : QueueMessage). m.queue_name ≡ q) ms

load_message-queue_of :
    (q : String) (m : QueueMessage) (s : MessageStore)
    → m.queue_name ≡ q
    → queue_of q (load_message m s) ≡ queue_of q s ++ (if m.acked then [] else m.id ∷ [])
unfolding load_message
load_message-queue_of q m s e = go m.acked
  where
    go :
        (b : Bool)
        → or_nil (
            Dict.get q (
              if b
              then s.queues
              else Dict.assign m.queue_name (queue_of m.queue_name s ++ m.id ∷ []) s.queues))
          ≡ queue_of q s ++ (if b then [] else m.id ∷ [])
    go true = sym (append-nil (queue_of q s))
    go false =
        queue_of-assign m.queue_name q (queue_of m.queue_name s ++ m.id ∷ []) s
        ∙ rw (subst (λ x. (m.queue_name == x) ≡ true) e (same_refl m.queue_name))
            (ap (λ x. queue_of x s ++ m.id ∷ []) e)

-- A message that is loaded comes to the end of its queue, unless it is acknowledged.
load_message-unacked :
    (q : String) (m : QueueMessage) (s : MessageStore)
    → m.queue_name ≡ q
    → contains m.id (queue_of q s) ≡ false
    → let s' = load_message m s in
      unacked s'.messages (queue_of q s')
      ≡ unacked s.messages (queue_of q s) ++ (if m.acked then [] else m ∷ [])
unfolding load_message
load_message-unacked q m s e new =
    ap (unacked (Dict.assign m.id m s.messages)) (load_message-queue_of q m s e) ∙ go m.acked refl
  where
    go :
        (b : Bool)
        → m.acked ≡ b
        → unacked (Dict.assign m.id m s.messages) (queue_of q s ++ (if b then [] else m.id ∷ []))
          ≡ unacked s.messages (queue_of q s) ++ (if b then [] else m ∷ [])
    go true old =
        ap (unacked (Dict.assign m.id m s.messages)) (append-nil (queue_of q s))
        ∙ unacked-assign_other s.messages m.id m (queue_of q s) new
        ∙ sym (append-nil (unacked s.messages (queue_of q s)))
    go false fresh = unacked-new s.messages m (queue_of q s) new fresh

pending_of-cons :
    (m : QueueMessage) (ms : List QueueMessage)
    → (if m.acked then [] else m ∷ []) ++ pending_of ms ≡ pending_of (m ∷ ms)
unfolding pending_of
pending_of-cons m ms = go m.acked
  where
    go :
        (b : Bool)
        → (if b then [] else m ∷ []) ++ pending_of ms
          ≡ (if b then pending_of ms else m ∷ pending_of ms)
    go true = refl
    go false = refl

still_new :
    (m : QueueMessage) (xs : List String) (id : String)
    → contains id xs ≡ false
    → (m.id == id) ≡ false
    → contains id (xs ++ (if m.acked then [] else m.id ∷ [])) ≡ false
unfolding contains
still_new m xs id h k = contains-append id xs _ ∙ go m.acked
  where
    go : (b : Bool) → contains id xs || contains id (if b then [] else m.id ∷ []) ≡ false
    go true = rw h refl
    go false = rw (h, k) refl

-- the messages one after the other
unfoldable load_all : List QueueMessage → MessageStore → MessageStore
load_all [] s = s
load_all (m ∷ ms) s = load_all ms (load_message m s)

-- A message that was written with `to_dict` is read back by `from_dict` as it was.
pub from_dict-to_dict : (now : ℕ) (m : QueueMessage) → from_dict now (to_dict m) ≡ some m
unfolding from_dict to_dict has_only find text_in number_or boolean_or message_with contains
from_dict-to_dict now m = refl

load_messages-bodies_of :
    (now : ℕ) (ms : List QueueMessage) (s : MessageStore)
    → load_messages now (bodies_of ms) s ≡ load_all ms s
unfolding load_messages bodies_of load_all
load_messages-bodies_of now [] s = refl
load_messages-bodies_of now (m ∷ ms) s =
    rw (load_messages, from_dict-to_dict now m) (load_messages-bodies_of now ms (load_message m s))

load_all-unacked :
    (q : String) (ms : List QueueMessage) (s : MessageStore)
    → FileOf q ms
    → ((id : String) → contains id (ids_of ms) ≡ true → contains id (queue_of q s) ≡ false)
    → let s' = load_all ms s in
      unacked s'.messages (queue_of q s') ≡ unacked s.messages (queue_of q s) ++ pending_of ms
unfolding load_all contains pending_of unacked
load_all-unacked q [] s f new = sym (append-nil (unacked s.messages (queue_of q s)))
load_all-unacked q (m ∷ ms) s f new =
    load_all-unacked q ms (load_message m s) (f.0.1, f.1.1)
      (λ id k.
        subst (λ xs. contains id xs ≡ false) (sym (load_message-queue_of q m s f.1.0))
          (still_new m (queue_of q s) id (new id (ground (arith, k)))
            (ground (arith, k, f.0.0, string_key.same_iff m.id id))))
    ∙ ap (λ xs. xs ++ pending_of ms)
        (load_message-unacked q m s f.1.0 (new m.id (rw (same_refl m.id) refl)))
    ∙ append_assoc (unacked s.messages (queue_of q s)) _ (pending_of ms)
    ∙ ap (λ xs. unacked s.messages (queue_of q s) ++ xs) (pending_of-cons m ms)

-- the messages of a queue have different ids, and each stands under its id and names the queue
unfoldable pub IsQueue : String → MessageStore → Type 0
IsQueue q s =
    Distinct (queue_of q s)
    × ((id : String) (m : QueueMessage)
        → contains id (queue_of q s) ≡ true
        → Dict.get id s.messages ≡ some m
        → (m.id ≡ id) × (m.queue_name ≡ q))

known-FileOf :
    (q : String) (ids : List String) (d : Dict String QueueMessage)
    → Distinct ids
    → ((id : String) (m : QueueMessage)
        → contains id ids ≡ true
        → Dict.get id d ≡ some m
        → (m.id ≡ id) × (m.queue_name ≡ q))
    → FileOf q (known ids d)
      × ((id : String) → contains id (ids_of (known ids d)) ≡ true → contains id ids ≡ true)
unfolding known contains add_known
known-FileOf q [] d u all = ((tt, tt), λ id k. k)
known-FileOf q (x ∷ xs) d u all =
    let (f, sub) = known-FileOf q xs d u.1 (λ id m k e. all id m (ground (arith, k)) e) in
    go (Dict.get x d) refl f sub
  where
    go :
        (o : Option QueueMessage)
        → Dict.get x d ≡ o
        → FileOf q (known xs d)
        → ((id : String) → contains id (ids_of (known xs d)) ≡ true → contains id xs ≡ true)
        → FileOf q (add_known o (known xs d))
          × ((id : String)
              → contains id (ids_of (add_known o (known xs d))) ≡ true
              → x == id || contains id xs ≡ true)
    go none e f sub = (f, λ id k. ground (arith, sub id k))
    go (some m) e f sub =
        let (named, on) = all x m (rw (same_refl x) refl) e in
        (
          (
            (
              ground (
                arith,
                sub x,
                u.0,
                subst (λ i. contains i (ids_of (known xs d)) ≡ contains x (ids_of (known xs d)))
                    (sym named) refl,
              ),
              f.0,
            ),
            (on, f.1),
          ),
          λ id k. ground (arith, k, sub id, named),
        )

-- A message with an id that the queues and the store do not have yet leaves every queue as it should be.
pub add-IsQueue :
    (file_name : String → String) (m : QueueMessage) (q : String) (s : MessageStore)
    → contains m.id (queue_of q s) ≡ false
    → IsQueue q s
    → IsQueue q (add file_name m s)
unfolding add save_queue IsQueue contains
add-IsQueue file_name m q s new w = elim (Bool-cases (m.queue_name == q)) [
  | inr miss ↦
      let e : queue_of q (add file_name m s) ≡ queue_of q s =
        queue_of-assign m.queue_name q (queue_of m.queue_name s ++ m.id ∷ []) s ∙ rw miss refl in
      (rw e w.0, λ id m' k at. kept id m' (sym (ap (λ xs. contains id xs) e) ∙ k) at)
  | inl hit ↦
      let on : m.queue_name ≡ q = same→eq m.queue_name q hit in
      let e : queue_of q (add file_name m s) ≡ queue_of q s ++ m.id ∷ [] =
        queue_of-assign m.queue_name q (queue_of m.queue_name s ++ m.id ∷ []) s
        ∙ rw hit (ap (λ x. queue_of x s ++ m.id ∷ []) on) in
      (
        rw e (Distinct-append m.id (queue_of q s) w.0 new),
        λ id m' k at. elim (Bool-cases (m.id == id)) [
          | inr other ↦
              kept id m'
                (ground (
                  arith,
                  sym (ap (λ xs. contains id xs) e) ∙ k,
                  other,
                  contains-append id (queue_of q s) (m.id ∷ []),
                ))
                at
          | inl own ↦
              let same : m ≡ m' =
                some-injective m m' (sym (get-assign id m.id m s.messages ∙ rw own refl) ∙ at) in
              (
                sym (ap (λ (x : QueueMessage). x.id) same) ∙ same→eq m.id id own,
                sym (ap (λ (x : QueueMessage). x.queue_name) same) ∙ on,
              )
        ],
      )
]
  where
    kept :
        (id : String) (m' : QueueMessage)
        → contains id (queue_of q s) ≡ true
        → Dict.get id (Dict.assign m.id m s.messages) ≡ some m'
        → (m'.id ≡ id) × (m'.queue_name ≡ q)
    kept id m' k at =
        let miss : (m.id == id) ≡ false = ground (arith, k, new, string_key.same_iff m.id id) in
        w.1 id m' k (sym (get-assign id m.id m s.messages ∙ rw miss refl) ∙ at)

-- For a queue whose ids are different, and whose messages each stand under their id and name the queue
-- (publishing an id of the queue once more can end that): what `_save_queue` writes for it, loaded by
-- `_load` into a store whose queue is empty, gives a queue that delivers the same messages in the same
-- order as the one that was saved.
pub save_queue-load_messages :
    (file_name : String → String) (now : ℕ) (q : String) (s t : MessageStore)
    → IsQueue q s
    → queue_of q t ≡ []
    → (body : Json) × (Dict.get (file_name q) (save_queue file_name q s).files ≡ some body)
      × (let t' = load now ((file_name q, body) ∷ []) t in
          unacked t'.messages (queue_of q t') ≡ unacked s.messages (queue_of q s))
unfolding save_queue unacked IsQueue contains load messages_in elements_in file_of find
save_queue-load_messages file_name now q s t w e =
    let ms = known (queue_of q s) s.messages in
    let (f, sub) = known-FileOf q (queue_of q s) s.messages w.0 w.1 in
    (
      file_of ms,
      get-assign (file_name q) (file_name q) _ s.files ∙ rw (same_refl (file_name q)) refl,
      ap (λ (x : MessageStore). unacked x.messages (queue_of q x))
            (load_messages-bodies_of now ms t)
          ∙ load_all-unacked q ms t f (λ id k. ap (λ xs. contains id xs) e)
          ∙ rw e (sym (unacked-known s.messages (queue_of q s))),
    )
