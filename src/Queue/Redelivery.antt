-- ===== src/Queue/Redelivery.antt =====
-- src/nodes/queue_node.py: which messages a round of the redelivery takes out of `in_flight`.
use pynchronize.Prelude.{
  ℕ, ◌-◌, ◌≡◌, refl, ◌∙◌, subst, true, false, Bool, Option, none, some, [], ◌∷◌, String, string_key,
  ◌==◌, ltb, if◌then◌else◌, arith, Bool-cases, inl, inr, same→eq, contains, ◌||◌, ◌&&◌,
}
use pynchronize.Prelude.Dict
use pynchronize.Prelude.Dict.{Dict, get-assign, get-remove, keys, UniqueKeys}
use pynchronize.Queue.Store
use pynchronize.Queue.Store.{
  QueueMessage, MessageStore, queue_of, or_nil, save_queue, add, if_pending, load_message,
  load_messages, known, add_known,
}
use pynchronize.Queue.Node.{QueueNode, redeliver, redelivery_round}

abbrev pub if_fresh : ℕ → ℕ → Option ℕ → Option ℕ
if_fresh now timeout none = none
if_fresh now timeout (some t) = if ltb timeout (now - t) then none else some t

-- Whether one of the items is older than the timeout.
unfoldable overdue : ℕ → ℕ → String → Dict String ℕ → Bool
overdue now timeout id [] = false
overdue now timeout id ((j, t) ∷ items) =
    (j == id && ltb timeout (now - t)) || overdue now timeout id items

overdue-none :
    (now timeout : ℕ) (id : String) (d : Dict String ℕ)
    → contains id (keys d) ≡ false
    → overdue now timeout id d ≡ false
unfolding overdue contains
overdue-none now timeout id [] h = refl
overdue-none now timeout id ((j, t) ∷ d) h = ground (arith, overdue-none now timeout id d)

overdue_unique :
    (now timeout : ℕ) (id : String) (d : Dict String ℕ)
    → UniqueKeys d
    → (if overdue now timeout id d then none else Dict.get id d)
      ≡ if_fresh now timeout (Dict.get id d)
unfolding overdue Dict.get
overdue_unique now timeout id [] u = refl
overdue_unique now timeout id ((j, t) ∷ d) u = elim (Bool-cases (j == id)) [
  | inr miss ↦ rw miss (overdue_unique now timeout id d u.1)
  | inl hit ↦
      let e : j ≡ id = same→eq j id hit in
      let gone : overdue now timeout id d ≡ false =
        overdue-none now timeout id d (subst (λ x. contains x (keys d) ≡ false) e u.0) in
      rw (hit, gone) (ground arith)
]

redeliver-timeout :
    (file_name : String → String) (now : ℕ) (items : Dict String ℕ) (n : QueueNode) (id : String)
    → Dict.get id (redeliver file_name now items n).in_flight
      ≡ (if overdue now n.ack_timeout id items then none else Dict.get id n.in_flight)
unfolding redeliver overdue
redeliver-timeout file_name now [] n id = refl
redeliver-timeout file_name now ((j, t) ∷ items) n id =
    go (ltb n.ack_timeout (now - t)) (λ n'. redeliver-timeout file_name now items n' id)
  where
    go :
        (b : Bool)
        → ((n' : QueueNode)
            → Dict.get id (redeliver file_name now items n').in_flight
              ≡ (if overdue now n'.ack_timeout id items then none else Dict.get id n'.in_flight))
        → Dict.get id
            (redeliver file_name now items (
              if b
              then record n {
                messages = Store.nack file_name now j n.messages;
                in_flight = Dict.remove j n.in_flight;
              }
              else n)).in_flight
          ≡ (if (j == id && b) || overdue now n.ack_timeout id items
              then none
              else Dict.get id n.in_flight)
    go false ih = ih n ∙ ground arith
    go true ih = ih _ ∙ ground (arith, get-remove id j n.in_flight)

-- A round of the redelivery takes out of `in_flight` exactly the messages that wait for their
-- acknowledgement longer than the timeout.
pub redelivery_round-lem :
    (file_name : String → String) (now : ℕ) (n : QueueNode) (id : String)
    → UniqueKeys n.in_flight
    → Dict.get id (redelivery_round file_name now n).in_flight
      ≡ if_fresh now n.ack_timeout (Dict.get id n.in_flight)
unfolding redelivery_round
redelivery_round-lem file_name now n id u =
    redeliver-timeout file_name now n.in_flight n id
    ∙ overdue_unique now n.ack_timeout id n.in_flight u
