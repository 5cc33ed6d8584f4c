-- ===== src/Api/Refusals.antt =====
-- src/main.py: the requests that are refused because a field of their body is missing.
use pynchronize.Prelude.{
  ℕ, ◌≡◌, refl, Bool, true, false, not, ◌||◌, Option, none, some, List, [], ◌∷◌, String, arith, eqb,
  if◌then◌else◌, ap,
}
use pynchronize.Json.{Json, Fields, null, boolean, number, text, array, object, field, no_fields}
use pynchronize.Transport.{Response}
use pynchronize.Lock.{status_value}
use pynchronize.Api.{
  Services, Request, get_health, get_locks, get_cache, get_lock, get_queue, get_key, delete_key,
  post_acquire, post_release, post_publish, post_consume, post_ack, put_key, is_true, is_none,
  get_or, type_of, acquired_json, messages_json, reply, unless_missing, ok, not_found, with_body,
  handle, acquire_lock, release_lock, lock_info, queue_publish, queue_consume, queue_ack,
  cache_read, cache_write,
}

abbrev body_of : Request → Option Json
body_of (post_acquire b) = b
body_of (post_release b) = b
body_of (post_publish b) = b
body_of (post_consume b) = b
body_of (post_ack b) = b
body_of (put_key key b) = b
body_of _ = none

-- the fields that must be given and not be empty
abbrev needed : Request → List String
needed (post_acquire b) = "client_id" ∷ "resource_id" ∷ []
needed (post_release b) = "client_id" ∷ "resource_id" ∷ []
needed (post_publish b) = "queue_name" ∷ []
needed (post_consume b) = "queue_name" ∷ []
needed (post_ack b) = "message_id" ∷ []
needed _ = []

-- the fields that must be given, with any value but null
abbrev needed_value : Request → List String
needed_value (post_publish b) = "payload" ∷ []
needed_value (put_key key b) = "value" ∷ []
needed_value _ = []

unfoldable pub any_of : (Json → Bool) → List String → Fields → Bool
any_of f [] fs = false
any_of f (n ∷ ns) fs = f (get_or n null fs) || any_of f ns fs

unfoldable pub in_object : (Fields → Bool) → Option Json → Bool
in_object f (some (object fs)) = f fs
in_object f _ = false

-- whether the body of a request is an object that lacks a field that the request needs
unfoldable pub lacks_field : Request → Bool
unfolding any_of in_object
lacks_field r =
    in_object
      (λ fs. any_of (λ x. not (is_true x)) (needed r) fs || any_of is_none (needed_value r) fs)
      (body_of r)

or_false : (a : Bool) → ((a || false) || false) ≡ a
or_false a = ground arith

only_false : (a : Bool) → (a || false) ≡ a
only_false a = ground arith

two_needed : (a b : Bool) → ((a || (b || false)) || false) ≡ (a || b)
two_needed a b = ground arith

one_of_each : (a b : Bool) → ((a || false) || (b || false)) ≡ (a || b)
one_of_each a b = ground arith

-- the status that the client gets; a handler that raises is answered with 500
abbrev pub status_of : Option Response → ℕ
status_of none = 500
status_of (some r) = r.status

-- A handler that refuses where a field is missing, and else gives a status that is not 400.
record Refuses (S : Type 0) (lacks : Bool) (s : S) (r : S × Option Response) : Type 0 where
  status : eqb (status_of r.1) 400 ≡ lacks
  state : (if lacks then r.0 else s) ≡ s

module _ {S : Type 0} where
  refuse-or-reply {ℓ} :
      {A : Type ℓ} (b lacks : Bool) (e : String) (s : S) (f : A → Response) (x : S × Option A)
      → lacks ≡ b
      → ((a : A) → (f a).status ≡ 200)
      → Refuses S lacks s (unless_missing b e s (reply f x))
  unfolding reply unless_missing
  refuse-or-reply true lacks e s f x same ok = rw same (record { status = refl; state = refl })
  refuse-or-reply false lacks e s f (s', none) same ok =
      rw same (record { status = refl; state = refl })
  refuse-or-reply false lacks e s f (s', some a) same ok =
      rw same (record { status = ap (λ k. eqb k 400) (ok a); state = refl })

  body-Refuses :
      (f : Fields → S → S × Option Response) (g : Fields → Bool) (s : S)
      → ((fs : Fields) → Refuses S (g fs) s (f fs s))
      → (b : Option Json) → Refuses S (in_object g b) s (with_body f b s)
  unfolding in_object with_body
  body-Refuses f g s h (some (object fs)) = h fs
  body-Refuses f g s h none = record { status = refl; state = refl }
  body-Refuses f g s h (some null) = record { status = refl; state = refl }
  body-Refuses f g s h (some (boolean b)) = record { status = refl; state = refl }
  body-Refuses f g s h (some (number n)) = record { status = refl; state = refl }
  body-Refuses f g s h (some (text t)) = record { status = refl; state = refl }
  body-Refuses f g s h (some (array xs)) = record { status = refl; state = refl }

  lock_info-accepted :
      (v : Services S) (id : String) (s : S) → eqb (lock_info v id s).status 400 ≡ false
  unfolding lock_info
  lock_info-accepted v id s = go (v.get_lock_info id s)
    where
      go :
          (o : Option Json)
          → eqb
              (elim o as (λ x. Response) [
                | none ↦ not_found "Lock not found"
                | some info ↦ if is_true info then ok info else not_found "Lock not found"
              ]).status
              400
            ≡ false
      go none = refl
      go (some info) = go' (is_true info)
        where
          go' :
              (b : Bool)
              → eqb (if b then ok info else not_found "Lock not found").status 400 ≡ false
          go' true = refl
          go' false = refl

  cache_read-accepted :
      (v : Services S) (key : String) (s : S) → eqb (status_of (cache_read v key s).1) 400 ≡ false
  unfolding cache_read reply
  cache_read-accepted v key s = go (v.read key s)
    where
      go' :
          (b : Bool) (r : Json)
          → eqb (if b then not_found "Key not found" else ok r).status 400 ≡ false
      go' true r = refl
      go' false r = refl

      go :
          (x : S × Option Json)
          → eqb
              (status_of
                (reply
                  (λ value.
                    if is_none value
                    then not_found "Key not found"
                    else ok (object (field "key" (text key) (field "value" value no_fields))))
                  x).1)
              400
            ≡ false
      go (s', none) = refl
      go (s', some value) = go' (is_none value) _

  handle-Refuses :
      (v : Services S) (r : Request) (s : S) → Refuses S (lacks_field r) s (handle v r s)
  unfolding handle lacks_field any_of acquire_lock release_lock queue_publish queue_consume
      queue_ack cache_write
  handle-Refuses v get_health s = record { status = refl; state = refl }
  handle-Refuses v get_locks s = record { status = refl; state = refl }
  handle-Refuses v get_cache s = record { status = refl; state = refl }
  handle-Refuses v (get_lock id) s = record { status = lock_info-accepted v id s; state = refl }
  handle-Refuses v (get_queue q) s = record { status = refl; state = refl }
  handle-Refuses v (get_key key) s = record { status = cache_read-accepted v key s; state = refl }
  handle-Refuses v (delete_key key) s = record { status = refl; state = refl }
  handle-Refuses v (post_acquire b) s =
      body-Refuses (acquire_lock v) _ s
        (λ fs.
          refuse-or-reply _ _ _ s
            (λ status.
              acquired_json status (get_or "resource_id" null fs)
                (type_of (get_or "lock_type" (text "exclusive") fs)))
            (v.acquire_lock (get_or "client_id" null fs) (get_or "resource_id" null fs)
              (type_of (get_or "lock_type" (text "exclusive") fs)) (get_or "timeout" (number 30) fs)
              s)
            (two_needed _ _) (λ a. refl))
        b
  handle-Refuses v (post_release b) s =
      body-Refuses (release_lock v) _ s
        (λ fs.
          refuse-or-reply _ _ _ s
            (λ status. ok (object (field "status" (text (status_value status)) no_fields)))
            (v.release_lock (get_or "client_id" null fs) (get_or "resource_id" null fs) s)
            (two_needed _ _) (λ a. refl))
        b
  handle-Refuses v (post_publish b) s =
      body-Refuses (queue_publish v) _ s
        (λ fs.
          refuse-or-reply _ _ _ s
            (λ id. ok (
              object (
                field "message_id" id
                  (field "queue_name" (get_or "queue_name" null fs) no_fields))))
            (v.publish (get_or "queue_name" null fs) (get_or "payload" null fs)
              (get_or "message_id" null fs) s)
            (one_of_each _ _) (λ a. refl))
        b
  handle-Refuses v (post_consume b) s =
      body-Refuses (queue_consume v) _ s
        (λ fs.
          refuse-or-reply _ _ _ s
            (λ ms. ok (object (field "messages" (array (messages_json ms)) no_fields)))
            (v.consume (get_or "queue_name" null fs) (get_or "limit" (number 1) fs) s) (or_false _)
            (λ a. refl))
        b
  handle-Refuses v (post_ack b) s =
      body-Refuses (queue_ack v) _ s
        (λ fs.
          refuse-or-reply _ _ _ s
            (λ success. ok (object (field "success" (boolean success) no_fields)))
            (v.ack (get_or "message_id" null fs) s) (or_false _) (λ a. refl))
        b
  handle-Refuses v (put_key key b) s =
      body-Refuses (cache_write v key) _ s
        (λ fs.
          refuse-or-reply _ _ _ s
            (λ success.
              ok (object (field "success" (boolean success) (field "key" (text key) no_fields))))
            (v.write key (get_or "value" null fs) s) (only_false _) (λ a. refl))
        b

  -- A request is answered with 400 exactly if its body is an object that lacks a field that it needs, and
  -- then nothing has changed: no method of a node has run.
  pub handle-lacks_field :
      (v : Services S) (r : Request) (s : S)
      → (eqb (status_of (handle v r s).1) 400 ≡ lacks_field r)
        × ((if lacks_field r then (handle v r s).0 else s) ≡ s)
  handle-lacks_field v r s = let w = handle-Refuses v r s in (w.status, w.state)
