-- ===== src/Lock/Forward/Answered.antt =====
-- src/nodes/lock_manager.py: what a node that is not the leader answers for the leader.
use pynchronize.Prelude.{ℕ, ◌≡◌, refl, true, Bool, Option, none, some, String, string_key, ◌∙◌, ap}
use pynchronize.Prelude.Dict
use pynchronize.Prelude.Dict.{get-assign}
use pynchronize.Config.{NodeConfig, Cluster, get_node}
use pynchronize.Json.{Json, text, find}
use pynchronize.Message
use pynchronize.Message.{Message, type_key, lock_request, lock_release}
use pynchronize.Transport.{
  MessageTransport, Handled, answered, raised, Reply, got, register_handler,
}
use pynchronize.Transport.Rpc.{connected, answer_of, send-handle_message}
use pynchronize.Lock.{
  LockType, shared, exclusive, LockStatus, acquired, waiting, released, denied, timeout, deadlock,
  type_value, status_value,
}
use pynchronize.Lock.Forward.{
  acquiring, releasing, find_lock_type, find_status, lock_type_of, lock_type_in, status_of_value,
  status_in_fields, status_in, status_of_sent, forward_message, forward_to_leader, required,
  fields_of, acquire_with, release_with, handle_lock_request, handle_lock_release,
  register_lock_handlers, optional_type, type_of_action,
}

-- Each status and each type of a lock is read as what it was written as.
status_of_value-status_value :
    (status : LockStatus) → status_of_value (text (status_value status)) ≡ some status
unfolding status_of_value find_status status_value
status_of_value-status_value acquired = refl
status_of_value-status_value waiting = refl
status_of_value-status_value released = refl
status_of_value-status_value denied = refl
status_of_value-status_value timeout = refl
status_of_value-status_value deadlock = refl

lock_type_of-type_value : (t : LockType) → lock_type_of (text (type_value t)) ≡ some t
unfolding lock_type_of find_lock_type type_value
lock_type_of-type_value shared = refl
lock_type_of-type_value exclusive = refl

module _ {S R : Type 0} (substring : String → String → Bool) (error_text : Option Json → String)
    (leader_id : String) (term : S → ℕ) (reason : String)
    (acquire : Json → Json → LockType → S → S × LockStatus)
    (release : Json → Json → S → S × LockStatus) (from : MessageTransport R)
    (to : MessageTransport S) (s : S) where
  abbrev pub leader_transport : MessageTransport S
  leader_transport = register_lock_handlers leader_id term reason acquire release to

  abbrev pub post : String → ℕ → Json → Reply
  post = connected error_text leader_transport s

  forward-answer :
      (cluster : Cluster) (leader : NodeConfig) (m : Message)
      → get_node cluster leader_id ≡ some leader
      → from.session ≡ true
      → forward_to_leader substring post from cluster leader_id m
        ≡ status_of_sent substring (got (answer_of (Dict.get m.type leader_transport.handlers) m s))
  unfolding forward_to_leader
  forward-answer cluster leader m e k =
      rw (forward_to_leader, e)
        (ap (status_of_sent substring) (
          send-handle_message substring error_text from leader_transport s leader.host leader.port m
            k))

  get-lock_request :
      Dict.get lock_request leader_transport.handlers
      ≡ some (handle_lock_request leader_id term reason acquire)
  unfolding register_lock_handlers register_handler Message.type_value
  get-lock_request =
      get-assign lock_request lock_release _ _ ∙ get-assign lock_request lock_request _ to.handlers

  get-lock_release :
      Dict.get lock_release leader_transport.handlers
      ≡ some (handle_lock_release leader_id term reason release)
  unfolding register_lock_handlers register_handler Message.type_value
  get-lock_release = get-assign lock_release lock_release _ _

  -- the status in what a handler answers
  abbrev status_in_answer : S × Handled → Option LockStatus
  status_in_answer x =
      status_of_sent substring (got (elim x.1 [ answered o ↦ o | raised e ↦ none ]))

  request_answer :
      (node_id : String) (t : ℕ) (client_id resource_id : String) (lock_type : LockType)
      → let m = forward_message node_id t acquiring client_id resource_id (some lock_type) in
        status_in_answer (handle_lock_request leader_id term reason acquire m s)
        ≡ some (acquire (text client_id) (text resource_id) lock_type s).1
  unfolding forward_message optional_type handle_lock_request fields_of required find lock_type_in
      acquire_with status_of_sent status_in status_in_fields
  request_answer node_id t client_id resource_id lock_type =
      ap
        (λ o. status_in_answer (
          acquire_with leader_id term reason acquire (some (text client_id))
            (some (text resource_id)) o s))
        (lock_type_of-type_value lock_type)
      ∙ status_of_value-status_value (acquire (text client_id) (text resource_id) lock_type s).1

  release_answer :
      (node_id : String) (t : ℕ) (client_id resource_id : String)
      → let m = forward_message node_id t releasing client_id resource_id none in
        status_in_answer (handle_lock_release leader_id term reason release m s)
        ≡ some (release (text client_id) (text resource_id) s).1
  unfolding forward_message optional_type handle_lock_release fields_of required find release_with
      status_of_sent status_in status_in_fields
  release_answer node_id t client_id resource_id =
      status_of_value-status_value (release (text client_id) (text resource_id) s).1

  -- Where the leader is a node of the cluster and its answer arrives, a started node that forwards a
  -- request for a lock, or a release, answers with the status that the method of the leader gave for
  -- the same client, resource and type of lock.
  pub forward_to_leader-answer :
      (cluster : Cluster) (leader : NodeConfig) (node_id : String) (t : ℕ)
      (client_id resource_id : String) (lock_type : LockType)
      → get_node cluster leader_id ≡ some leader
      → from.session ≡ true
      → (forward_to_leader substring post from cluster leader_id
            (forward_message node_id t acquiring client_id resource_id (some lock_type))
          ≡ some (acquire (text client_id) (text resource_id) lock_type s).1)
        × (forward_to_leader substring post from cluster leader_id
              (forward_message node_id t releasing client_id resource_id none)
            ≡ some (release (text client_id) (text resource_id) s).1)
  unfolding forward_message type_of_action
  forward_to_leader-answer cluster leader node_id t client_id resource_id lock_type e k = (
    forward-answer cluster leader _ e k
        ∙ ap
            (λ h. status_of_sent substring (
              got (
                answer_of h
                  (forward_message node_id t acquiring client_id resource_id (some lock_type)) s)))
            get-lock_request
        ∙ request_answer node_id t client_id resource_id lock_type,
    forward-answer cluster leader _ e k
        ∙ ap
            (λ h. status_of_sent substring (
              got (answer_of h (forward_message node_id t releasing client_id resource_id none) s)))
            get-lock_release
        ∙ release_answer node_id t client_id resource_id,
  )
