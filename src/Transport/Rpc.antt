-- ===== src/Transport/Rpc.antt =====
-- src/communication/message_passing.py: a message that is sent to a transport, and what comes back.
use pynchronize.Prelude.{
  ℕ, ◌≡◌, ◌≢◌, refl, ◌↔◌, ◌⊎◌, inl, inr, Option, none, some, String, string_key, arith, Bool, true,
  ◌∙◌, ap,
}
use pynchronize.Prelude.Dict
use pynchronize.Prelude.Dict.{Dict, get-assign, UniqueKeys}
use pynchronize.Json.{Json, find}
use pynchronize.Message.{type_key, Message, to_dict, from_dict, from_dict-to_dict}
use pynchronize.Transport.{
  Handled, answered, raised, Handler, MessageTransport, Response, error, respond, dispatch,
  handle_message, Reply, replied, got, read_response, read_reply, got_message, send,
}

module _ {S : Type 0} where
  -- the handler of a message ran, and the status is 200 where it raised nothing
  abbrev pub Handles : MessageTransport S → Message → S → S × Response → Type 0
  Handles t m s r =
      (h : Handler S) × (Dict.get m.type t.handlers ≡ some h)
      × (r.0 ≡ (h m s).0)
      × ((r.1.status ≡ 200) ↔ ((o : Option Message) × ((h m s).1 ≡ answered o)))

  dispatch-cases :
      (t : MessageTransport S) (m : Message) (s : S)
      → let r = dispatch (Dict.get m.type t.handlers) m s in
        ((r.0 ≡ s) × (r.1.status ≢ 200)) ⊎ Handles t m s r
  unfolding dispatch respond
  dispatch-cases t m s = go (Dict.get m.type t.handlers) refl
    where
      ran :
          (x : S × Handled)
          → ((respond x).0 ≡ x.0)
            × (((respond x).1.status ≡ 200) ↔ ((o : Option Message) × (x.1 ≡ answered o)))
      ran (s', answered (some m')) = (refl, (λ k. (some m', refl), λ k. refl))
      ran (s', answered none) = (refl, (λ k. (none, refl), λ k. refl))
      ran (s', raised e') = (refl, (λ k. absurd (omega (arith, k)), λ (o, q). cc))

      go :
          (o : Option (Handler S))
          → Dict.get m.type t.handlers ≡ o
          → ((((dispatch o m s).0) ≡ s) × ((dispatch o m s).1.status ≢ 200))
            ⊎ Handles t m s (dispatch o m s)
      go none e = inl (refl, λ k. omega (arith, k))
      go (some h) e = let (same, iff) = ran (h m s) in inr (h, e, same, iff)

  -- Whatever body a request has: either the status is not 200 and nothing was changed, or the body is a
  -- message whose handler ran, the state is what that handler left, and the status is 200 exactly where
  -- the handler raised nothing.
  pub handle_message-cases :
      (error_text : Option Json → String) (t : MessageTransport S) (body : Option Json) (s : S)
      → let r = handle_message error_text t body s in
        ((r.0 ≡ s) × (r.1.status ≢ 200))
        ⊎ ((b : Json) × (m : Message) × (body ≡ some b) × (from_dict b ≡ some m) × Handles t m s r)
  unfolding handle_message
  handle_message-cases error_text t none s = inl (refl, λ k. omega (arith, k))
  handle_message-cases error_text t (some b) s = go (from_dict b) refl
    where
      result : Option Message → S × Response
      result none = (s, record { status = 500; body = error (error_text (some b)) })
      result (some m) = dispatch (Dict.get m.type t.handlers) m s

      go :
          (o : Option Message)
          → from_dict b ≡ o
          → (((result o).0 ≡ s) × ((result o).1.status ≢ 200))
            ⊎ ((b' : Json) × (m : Message) × (some b ≡ some b')
                × (from_dict b' ≡ some m)
                × Handles t m s (result o))
      go none e = inl (refl, λ k. omega (arith, k))
      go (some m) e = elim (dispatch-cases t m s) [
        | inl bad ↦ inl bad
        | inr ok ↦ inr (b, m, refl, e, ok)
      ]

  -- the HTTP client that is connected to one transport
  abbrev pub connected : (Option Json → String) → MessageTransport S → S → String → ℕ → Json → Reply
  connected error_text t s host port body =
      let (s', r) = handle_message error_text t (some body) s in replied r.status (some r.body)

  -- what a handler answers
  abbrev pub answer_of : Option (Handler S) → Message → S → Option Message
  answer_of none m s = none
  answer_of (some h) m s = elim ((h m s).1) [ answered o ↦ o | raised e ↦ none ]

  read_respond :
      (substring : String → String → Bool) (o : Option (Handler S)) (m : Message) (s : S)
      → let r = (dispatch o m s).1 in
        read_response substring (replied r.status (some r.body)) ≡ got (answer_of o m s)
  unfolding dispatch respond read_response read_reply got_message find
  read_respond substring none m s = refl
  read_respond substring (some h) m s = go (h m s)
    where
      go :
          (x : S × Handled)
          → let r = (respond x).1 in
            read_response substring (replied r.status (some r.body))
            ≡ got (elim x.1 [ answered o ↦ o | raised e ↦ none ])
      go (s', answered (some m')) = rw (from_dict-to_dict m') refl
      go (s', answered none) = refl
      go (s', raised e) = refl

  pub handle_message-to_dict :
      (error_text : Option Json → String) (t : MessageTransport S) (m : Message) (s : S)
      → handle_message error_text t (some (to_dict m)) s ≡ dispatch (Dict.get m.type t.handlers) m s
  unfolding handle_message
  handle_message-to_dict error_text t m s = rw (handle_message, from_dict-to_dict m) refl

  -- A message that a started transport sends to another one comes back as what the handler of its type
  -- answers to it, and as None where there is no such handler, or it gives no answer or raises.
  pub send-handle_message :
      {R : Type 0} (substring : String → String → Bool) (error_text : Option Json → String)
      (from : MessageTransport R) (to : MessageTransport S) (s : S) (host : String) (port : ℕ)
      (m : Message)
      → from.session ≡ true
      → send substring (connected error_text to s) from host port m
        ≡ got (answer_of (Dict.get m.type to.handlers) m s)
  unfolding send
  send-handle_message substring error_text from to s host port m e = rw e (
      ap (λ x. read_response substring (replied x.1.status (some x.1.body)))
        (handle_message-to_dict error_text to m s)
      ∙ read_respond substring (Dict.get m.type to.handlers) m s)
