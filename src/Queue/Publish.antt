-- ===== src/Queue/Publish.antt =====
-- src/nodes/queue_node.py: where a published message stands among those its queue delivers.
use pynchronize.Prelude.{
  ℕ, ◌≡◌, refl, ap, ◌∙◌, true, false, Option, none, some, List, [], ◌∷◌, ◌++◌, String, string_key,
  ◌==◌, if◌then◌else◌, arith, Bool-cases, inl, inr, same_refl, same→eq, contains,
}
use pynchronize.Json.{Json}
use pynchronize.Prelude.Dict
use pynchronize.Prelude.Dict.{Dict, get-assign, get-remove, keys, UniqueKeys}
use pynchronize.Queue.Ring.{chosen}
use pynchronize.Queue.Store.{
  QueueMessage, MessageStore, queue_of, or_nil, save_queue, add, if_pending,
}
use pynchronize.Queue.Node.{QueueNode}
use pynchronize.Queue.Broker.{responsible, publish_to, publish}
use pynchronize.Queue.Delivery.{unacked}

-- A message with an id that the list does not have changes nothing in it.
pub unacked-assign_other :
    (d : Dict String QueueMessage) (id : String) (m : QueueMessage) (ids : List String)
    → contains id ids ≡ false
    → unacked (Dict.assign id m d) ids ≡ unacked d ids
unfolding unacked contains
unacked-assign_other d id m [] h = refl
unacked-assign_other d id m (x ∷ xs) h =
    let miss : (id == x) ≡ false =
      ground (arith, h, string_key.same_iff id x, string_key.same_iff x id) in
    let same : Dict.get x (Dict.assign id m d) ≡ Dict.get x d =
      get-assign x id m d ∙ rw miss refl in
    rw (unacked, same)
      (go (if_pending (Dict.get x d)) (unacked-assign_other d id m xs (ground (arith, h))))
  where
    go :
        (o : Option QueueMessage)
        → unacked (Dict.assign id m d) xs ≡ unacked d xs
        → ◌≡◌ {A = List QueueMessage}
            (elim o [
              | none ↦ unacked (Dict.assign id m d) xs
              | some y ↦ y ∷ unacked (Dict.assign id m d) xs
            ])
            (elim o [ none ↦ unacked d xs | some y ↦ y ∷ unacked d xs ])
    go none e = e
    go (some y) e = ap (λ ms. y ∷ ms) e

unacked-append :
    (d : Dict String QueueMessage) (xs ys : List String)
    → unacked d (xs ++ ys) ≡ unacked d xs ++ unacked d ys
unfolding unacked
unacked-append d [] ys = refl
unacked-append d (x ∷ xs) ys = go (if_pending (Dict.get x d)) (unacked-append d xs ys)
  where
    go :
        (o : Option QueueMessage)
        → unacked d (xs ++ ys) ≡ unacked d xs ++ unacked d ys
        → ◌≡◌ {A = List QueueMessage}
            (elim o [ none ↦ unacked d (xs ++ ys) | some m ↦ m ∷ unacked d (xs ++ ys) ])
            (elim o as (λ o. List QueueMessage) [ none ↦ unacked d xs | some m ↦ m ∷ unacked d xs ]
              ++ unacked d ys)
    go none e = e
    go (some m) e = ap (λ ms. m ∷ ms) e

-- A message that is new and not acknowledged, at the end of a list.
pub unacked-new :
    (d : Dict String QueueMessage) (m : QueueMessage) (ids : List String)
    → contains m.id ids ≡ false
    → m.acked ≡ false
    → unacked (Dict.assign m.id m d) (ids ++ m.id ∷ []) ≡ unacked d ids ++ m ∷ []
unfolding unacked if_pending
unacked-new d m ids h k =
    unacked-append (Dict.assign m.id m d) ids (m.id ∷ [])
    ∙ ap (λ ms. ms ++ unacked (Dict.assign m.id m d) (m.id ∷ []))
        (unacked-assign_other d m.id m ids h)
    ∙ ap (λ ms. unacked d ids ++ ms) last
  where
    last : unacked (Dict.assign m.id m d) (m.id ∷ []) ≡ m ∷ []
    last = rw (unacked, get-assign m.id m.id m d, same_refl m.id, if_pending, k) refl

pub queue_of-assign :
    (q q' : String) (ids : List String) (s : MessageStore)
    → or_nil (Dict.get q' (Dict.assign q ids s.queues)) ≡ (if q == q' then ids else queue_of q' s)
queue_of-assign q q' ids s = elim (Bool-cases (q == q')) [
  | inl hit ↦ rw (get-assign q' q ids s.queues, hit) refl
  | inr miss ↦ rw (get-assign q' q ids s.queues, miss) refl
]

-- A message with an id that no queue has yet comes to the end of its queue, and no other queue changes.
unacked-add :
    (file_name : String → String) (m : QueueMessage) (q : String) (s : MessageStore)
    → contains m.id (queue_of q s) ≡ false
    → m.acked ≡ false
    → let s' = add file_name m s in
      unacked s'.messages (queue_of q s') ≡ (
        if m.queue_name == q
        then unacked s.messages (queue_of q s) ++ m ∷ []
        else unacked s.messages (queue_of q s))
unfolding add save_queue
unacked-add file_name m q s h k = elim (Bool-cases (m.queue_name == q)) [
  | inr miss ↦ rw miss (
      ap (unacked (Dict.assign m.id m s.messages))
        (queue_of-assign m.queue_name q (queue_of m.queue_name s ++ m.id ∷ []) s ∙ rw miss refl)
      ∙ unacked-assign_other s.messages m.id m (queue_of q s) h)
  | inl hit ↦
      let e : m.queue_name ≡ q = same→eq m.queue_name q hit in
      rw hit (
        ap (unacked (Dict.assign m.id m s.messages)) (
          queue_of-assign m.queue_name q (queue_of m.queue_name s ++ m.id ∷ []) s
          ∙ rw hit (ap (λ x. queue_of x s ++ m.id ∷ []) e))
        ∙ unacked-new s.messages m (queue_of q s) h k)
]

-- the message that `publish` makes
abbrev pub message_of : ℕ → String → Json → String → QueueMessage
message_of now queue_name payload id = record {
  id = id;
  queue_name = queue_name;
  payload = payload;
  created_at = now;
  attempts = 0;
  last_attempt = 0;
  acked = false;
}

-- `publish` of a message with an id that no queue has yet, where the node is one of those that are
-- responsible for it: its store then delivers the message behind what the queue delivered before, and
-- delivers from every other queue what it did.
pub unacked-publish :
    (hash : String → ℕ) (file_name : String → String) (now : ℕ) (q : String) (payload : Json)
    (id : String) (n : QueueNode) (targets : List String)
    → responsible hash id n ≡ chosen targets
    → contains n.node_id targets ≡ true
    → ((q' : String) → contains id (queue_of q' n.messages) ≡ false)
    → (q' : String)
    → let n' = (publish hash file_name now q payload id n).0 in
      unacked n'.messages.messages (queue_of q' n'.messages) ≡ (
        if q == q'
        then unacked n.messages.messages (queue_of q' n.messages)
          ++ message_of now q payload id ∷ []
        else unacked n.messages.messages (queue_of q' n.messages))
unfolding publish publish_to
unacked-publish hash file_name now q payload id n targets e here new q' =
    rw (e, here) (unacked-add file_name (message_of now q payload id) q' n.messages (new q') refl)
