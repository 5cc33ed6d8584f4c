-- ===== src/Lock/Forward/Tests.antt =====
-- A request that a follower forwards to a leader that grants and releases whatever it is asked for.
use pynchronize.Prelude.{
  ℕ, suc, ◌≡◌, refl, true, Bool, Option, some, none, [], ◌∷◌, String, string_key, ◌==◌,
}
use pynchronize.Config.{NodeConfig, get_node}
use pynchronize.Json.{Json}
use pynchronize.Transport.{MessageTransport}
use pynchronize.Lock.{LockType, exclusive, LockStatus, acquired, released}
use pynchronize.Lock.Forward.{acquiring, releasing, forward_message, forward_to_leader}
use pynchronize.Lock.Forward.Answered.{post, forward_to_leader-answer}

abbrev follower : MessageTransport ℕ
follower = record { node_id = "a"; host = "h"; port = 1; handlers = []; session = true }

abbrev acquire_any : Json → Json → LockType → ℕ → ℕ × LockStatus
acquire_any client_id resource_id lock_type n = (suc n, acquired)

abbrev release_any : Json → Json → ℕ → ℕ × LockStatus
release_any client_id resource_id n = (suc n, released)

abbrev leader : NodeConfig
leader = record { node_id = "b"; host = "h"; port = 2 }

abbrev substring : String → String → Bool
substring s t = s == t

abbrev error_text : Option Json → String
error_text body = "no message"

forward_to_leader-answer_example :
    let send =
      post substring error_text "b" (λ n. n) "" acquire_any release_any follower follower 5 in
    (forward_to_leader substring send follower
        (leader ∷ [])
        "b"
        (forward_message "a" 3 acquiring "c" "r" (some exclusive))
      ≡ some acquired)
    × (forward_to_leader substring send follower
          (leader ∷ [])
          "b"
          (forward_message "a" 3 releasing "c" "r" none)
        ≡ some released)
unfolding get_node
forward_to_leader-answer_example =
    forward_to_leader-answer substring error_text "b" (λ n. n) "" acquire_any release_any follower
      follower 5 (leader ∷ []) leader "a" 3 "c" "r" exclusive refl refl
