-- ===== src/Queue/Delivery.antt =====
-- src/nodes/queue_node.py: what `MessageStore` delivers.
use pynchronize.Prelude.{
  ℕ, suc, ◌-◌, ◌≡◌, refl, sym, ap, ◌∙◌, true, Option, none, some, List, [], ◌∷◌, String, string_key,
  ◌==◌, leb, if◌then◌else◌, length, take, arith, Bool-cases, inl, inr, max, same_sym, discard,
}
use pynchronize.Prelude.Dict
use pynchronize.Prelude.Dict.{Dict, get-assign}
use pynchronize.Queue.Store.{
  QueueMessage, MessageStore, queue_of, save_queue, if_pending, pending_from, get_pending,
  count_pending, get_queue_size, ack_found, ack,
}

-- the messages of a list of ids that are not acknowledged, in order
unfoldable pub unacked : Dict String QueueMessage → List String → List QueueMessage
unfolding if_pending
unacked d [] = []
unacked d (id ∷ ids) = elim (if_pending (Dict.get id d)) [
  | none ↦ unacked d ids
  | some m ↦ m ∷ unacked d ids
]

pending_from-take :
    (d : Dict String QueueMessage) (limit n : ℕ) (ids : List String)
    → pending_from d limit n ids ≡ take (suc (limit - suc n)) (unacked d ids)
unfolding pending_from unacked
pending_from-take d limit n [] = refl
pending_from-take d limit n (id ∷ ids) =
    go (if_pending (Dict.get id d)) refl (λ k. pending_from-take d limit k ids)
  where
    next :
        (m : QueueMessage)
        → pending_from d limit (suc n) ids ≡ take (suc (limit - suc (suc n))) (unacked d ids)
        → (if leb limit (suc n) then [] else pending_from d limit (suc n) ids)
          ≡ take (limit - suc n) (unacked d ids)
    next m rest = elim (Bool-cases (leb limit (suc n))) [
      | inl full ↦
          let e : limit - suc n ≡ 0 = ground (arith, full) in
          rw full (sym (ap (λ k. take k (unacked d ids)) e))
      | inr more ↦
          let e : suc (limit - suc (suc n)) ≡ limit - suc n = ground (arith, more) in
          rw more (rest ∙ ap (λ k. take k (unacked d ids)) e)
    ]

    go :
        (o : Option QueueMessage)
        → if_pending (Dict.get id d) ≡ o
        → ((k : ℕ) → pending_from d limit k ids ≡ take (suc (limit - suc k)) (unacked d ids))
        → pending_from d limit n (id ∷ ids) ≡ take (suc (limit - suc n)) (unacked d (id ∷ ids))
    go none e rest = rw (e, pending_from, unacked) (rest n)
    go (some m) e rest = rw (e, pending_from, unacked) (ap (λ ms. m ∷ ms) (next m (rest (suc n))))

count_pending-length :
    (d : Dict String QueueMessage) (ids : List String)
    → count_pending d ids ≡ length (unacked d ids)
unfolding count_pending unacked
count_pending-length d [] = refl
count_pending-length d (id ∷ ids) =
    go (if_pending (Dict.get id d)) refl (count_pending-length d ids)
  where
    go :
        (o : Option QueueMessage)
        → if_pending (Dict.get id d) ≡ o
        → count_pending d ids ≡ length (unacked d ids)
        → count_pending d (id ∷ ids) ≡ length (unacked d (id ∷ ids))
    go none e rest = rw (e, count_pending, unacked) rest
    go (some m) e rest = rw (e, count_pending, unacked) (ap suc rest)

-- `get_pending(q, limit)` gives the first `limit` messages of the queue that are not acknowledged, in
-- the order of the queue, but one of them where the limit is 0; `get_queue_size` counts all of them.
pub get_pending-take :
    (q : String) (limit : ℕ) (s : MessageStore)
    → (get_pending q limit s ≡ take (max 1 limit) (unacked s.messages (queue_of q s)))
      × (get_queue_size q s ≡ length (unacked s.messages (queue_of q s)))
unfolding get_pending get_queue_size
get_pending-take q limit s =
    let e : suc (limit - 1) ≡ max 1 limit = ground arith in
    (
      pending_from-take s.messages limit 0 (queue_of q s)
          ∙ ap (λ k. take k (unacked s.messages (queue_of q s))) e,
      count_pending-length s.messages (queue_of q s),
    )

if_pending-assign :
    (d : Dict String QueueMessage) (id x : String) (m : QueueMessage)
    → m.acked ≡ true
    → if_pending (Dict.get x (Dict.assign id m d))
      ≡ (if x == id then none else if_pending (Dict.get x d))
unfolding if_pending
if_pending-assign d id x m k = elim (Bool-cases (x == id)) [
  | inl hit ↦ rw (get-assign x id m d, same_sym id x, hit, k) refl
  | inr miss ↦ rw (get-assign x id m d, same_sym id x, miss) refl
]

unacked-assign :
    (d : Dict String QueueMessage) (id : String) (m : QueueMessage) (ids : List String)
    → m.acked ≡ true
    → unacked (Dict.assign id m d) ids ≡ unacked d (discard id ids)
unfolding unacked discard
unacked-assign d id m [] k = refl
unacked-assign d id m (x ∷ xs) k = elim (Bool-cases (x == id)) [
  | inl hit ↦ rw (unacked, if_pending-assign d id x m k, hit, discard) (unacked-assign d id m xs k)
  | inr miss ↦
      rw (unacked, if_pending-assign d id x m k, miss, discard)
        (go (if_pending (Dict.get x d)) (unacked-assign d id m xs k))
]
  where
    go :
        (o : Option QueueMessage)
        → unacked (Dict.assign id m d) xs ≡ unacked d (discard id xs)
        → ◌≡◌ {A = List QueueMessage}
            (elim o [
              | none ↦ unacked (Dict.assign id m d) xs
              | some y ↦ y ∷ unacked (Dict.assign id m d) xs
            ])
            (elim o [ none ↦ unacked d (discard id xs) | some y ↦ y ∷ unacked d (discard id xs) ])
    go none e = e
    go (some y) e = ap (λ ms. y ∷ ms) e

-- `ack` of a message that the store has answers True, and takes that message, and no other, out of
-- what every queue delivers; of a message that it does not have, it answers False, and every queue
-- delivers what it did.
pub unacked-ack :
    (file_name : String → String) (id q : String) (s : MessageStore)
    → let (s', found) = ack file_name id s in
      (found ≡ Dict.has id s.messages)
      × (unacked s'.messages (queue_of q s') ≡ (
          if found
          then unacked s.messages (discard id (queue_of q s))
          else unacked s.messages (queue_of q s)))
unfolding ack ack_found save_queue
unacked-ack file_name id q s = go (Dict.get id s.messages) refl
  where
    go :
        (o : Option QueueMessage)
        → Dict.get id s.messages ≡ o
        → let (s', found) = ack_found file_name id o s in
          (found ≡ Dict.is_some o)
          × (unacked s'.messages (queue_of q s') ≡ (
              if found
              then unacked s.messages (discard id (queue_of q s))
              else unacked s.messages (queue_of q s)))
    go none e = (refl, refl)
    go (some m) e =
        (refl, unacked-assign s.messages id (record m { acked = true }) (queue_of q s) refl)
