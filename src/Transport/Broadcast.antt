-- ===== src/Transport/Broadcast.antt =====
-- src/communication/message_passing.py: the results of `broadcast`.
use pynchronize.Prelude.{
  ℕ, ◌≡◌, refl, Option, none, some, List, [], ◌∷◌, String, string_key, ◌==◌, arith, Bool, true,
  false, Bool-cases, inl, inr, if◌then◌else◌, ◌∙◌, ap, contains, subst, same→eq,
}
use pynchronize.Prelude.Dict
use pynchronize.Prelude.Dict.{Dict, get-assign, UniqueKeys, assign-UniqueKeys, keys}
use pynchronize.Config.{NodeConfig}
use pynchronize.Json.{Json}
use pynchronize.Message.{Message}
use pynchronize.Transport.{
  MessageTransport, Reply, Sent, send, tasks_of, result_of, results_of, broadcast,
}

-- the last target with an id
unfoldable pub last_with : String → Option NodeConfig → List NodeConfig → Option NodeConfig
last_with id o [] = o
last_with id o (n ∷ ns) = last_with id (if n.node_id == id then some n else o) ns

abbrev run_on {ℓ} : {A : Type ℓ} → (NodeConfig → A) → Option NodeConfig → Option A
run_on run none = none
run_on run (some n) = some (run n)

get-tasks_of :
    (run : NodeConfig → Sent) (id : String) (o : Option NodeConfig) (ns : List NodeConfig)
    (tasks : Dict String Sent)
    → Dict.get id tasks ≡ run_on run o
    → Dict.get id (tasks_of run ns tasks) ≡ run_on run (last_with id o ns)
unfolding tasks_of last_with
get-tasks_of run id o [] tasks e = e
get-tasks_of run id o (n ∷ ns) tasks e =
    get-tasks_of run id (if n.node_id == id then some n else o) ns
      (Dict.assign n.node_id (run n) tasks)
      (get-assign id n.node_id (run n) tasks ∙ go (n.node_id == id))
  where
    go :
        (b : Bool)
        → (if b then some (run n) else Dict.get id tasks) ≡ run_on run (if b then some n else o)
    go true = refl
    go false = e

tasks_of-UniqueKeys :
    (run : NodeConfig → Sent) (ns : List NodeConfig) (tasks : Dict String Sent)
    → UniqueKeys tasks
    → UniqueKeys (tasks_of run ns tasks)
unfolding tasks_of
tasks_of-UniqueKeys run [] tasks u = u
tasks_of-UniqueKeys run (n ∷ ns) tasks u =
    tasks_of-UniqueKeys run ns (Dict.assign n.node_id (run n) tasks)
      (assign-UniqueKeys n.node_id (run n) tasks u)

abbrev outcome_of : Option Sent → Option (Option Message) → Option (Option Message)
outcome_of none o = o
outcome_of (some t) o = some (result_of t)

get-results_of_other :
    (id : String) (tasks : Dict String Sent) (results : Dict String (Option Message))
    → contains id (keys tasks) ≡ false
    → Dict.get id (results_of tasks results) ≡ Dict.get id results
unfolding results_of contains
get-results_of_other id [] results h = refl
get-results_of_other id ((j, t) ∷ tasks) results h =
    get-results_of_other id tasks (Dict.assign j (result_of t) results) (ground (arith, h))
    ∙ get-assign id j (result_of t) results
    ∙ ground (arith, h, string_key.same_iff j id)

get-results_of :
    (id : String) (tasks : Dict String Sent) (results : Dict String (Option Message))
    → UniqueKeys tasks
    → Dict.get id (results_of tasks results) ≡ outcome_of (Dict.get id tasks) (Dict.get id results)
unfolding results_of Dict.get
get-results_of id [] results u = refl
get-results_of id ((j, t) ∷ tasks) results u = elim (Bool-cases (j == id)) [
  | inr miss ↦ rw miss (
      get-results_of id tasks (Dict.assign j (result_of t) results) u.1
      ∙ ap (outcome_of (Dict.get id tasks)) (get-assign id j (result_of t) results ∙ rw miss refl))
  | inl hit ↦ rw hit (
      get-results_of_other id tasks (Dict.assign j (result_of t) results)
        (subst (λ x. contains x (keys tasks) ≡ false) (same→eq j id hit) u.0)
      ∙ get-assign id j (result_of t) results
      ∙ rw hit refl)
]

-- `broadcast` has a result for every node that it was sent to and for no other: the message that `send`
-- gave for it, or None where it gave none or raised; among targets with one id it is that of the last.
pub get-broadcast :
    {S : Type 0} (substring : String → String → Bool) (post : String → ℕ → Json → Reply)
    (transport : MessageTransport S) (targets : List NodeConfig) (m : Message) (id : String)
    → Dict.get id (broadcast substring post transport targets m)
      ≡ run_on
          (λ n. result_of (send substring post transport n.host n.port m))
          (last_with id none targets)
unfolding broadcast Dict.get
get-broadcast substring post transport targets m id =
    let run : NodeConfig → Sent = λ n. send substring post transport n.host n.port m in
    get-results_of id (tasks_of run targets []) [] (tasks_of-UniqueKeys run targets [] tt)
    ∙ ap (λ o. outcome_of o none) (get-tasks_of run id none targets [] refl)
    ∙ go (last_with id none targets)
  where
    go :
        (o : Option NodeConfig)
        → outcome_of (run_on (λ n. send substring post transport n.host n.port m) o) none
          ≡ run_on (λ n. result_of (send substring post transport n.host n.port m)) o
    go none = refl
    go (some n) = refl
