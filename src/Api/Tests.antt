-- ===== src/Api/Tests.antt =====
-- The front end over services that count their calls.
use pynchronize.Prelude.{ℕ, suc, ◌≡◌, refl, true, false, none, some, [], eqb}
use pynchronize.Json.{null, text, array, object, no_elements, no_fields, field, find}
use pynchronize.Lock.{type_value, status_value, exclusive, acquired, released}
use pynchronize.Api.{
  Services, Request, post_acquire, get_key, handle, with_body, acquire_lock, cache_read, reply,
  unless_missing, acquired_json, not_found, is_true, is_none, get_or, type_of,
}
use pynchronize.Api.Refusals.{lacks_field, any_of, in_object, status_of, handle-lacks_field}

api : Unit {0}
unfolding handle with_body acquire_lock cache_read reply unless_missing is_true is_none get_or
    type_of type_value status_value lacks_field any_of in_object find
api = tt

abbrev counting : Services ℕ
counting = record {
  node_id = "node1";
  is_leader = λ n. true;
  get_leader = λ n. some "node1";
  get_term = λ n. 1;
  acquire_lock = λ c r t w n. (suc n, some acquired);
  release_lock = λ c r n. (suc n, some released);
  get_lock_info = λ r n. none;
  get_all_locks = λ n. array no_elements;
  publish = λ q p i n. (suc n, some i);
  consume = λ q l n. (suc n, some []);
  ack = λ i n. (suc n, some true);
  get_queue_info = λ q n. object no_fields;
  read = λ k n. (suc n, some null);
  write = λ k v n. (suc n, some true);
  invalidate = λ k n. (suc n, false);
  get_cache_info = λ n. object no_fields;
}

-- a text that is empty is as good as none
abbrev nameless : Request
nameless =
    post_acquire
      (some (object (field "client_id" (text "") (field "resource_id" (text "r") no_fields))))

abbrev complete : Request
complete =
    post_acquire
      (some (object (field "client_id" (text "c") (field "resource_id" (text "r") no_fields))))

handle-complete :
    handle counting complete 0 ≡ (1, some (acquired_json acquired (text "r") exclusive))
unfolding api
handle-complete = refl

handle-missing_key : (handle counting (get_key "k") 0).1 ≡ some (not_found "Key not found")
unfolding api
handle-missing_key = refl

handle-lacks_field_example :
    (eqb (status_of (handle counting nameless 5).1) 400 ≡ true)
    × ((handle counting nameless 5).0 ≡ 5)
unfolding api
handle-lacks_field_example = handle-lacks_field counting nameless 5
