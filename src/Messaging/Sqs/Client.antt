-- ===== src/Messaging/Sqs/Client.antt =====
-- src/messaging/sqs/sqs-client.adapter.ts: the client of Amazon SQS, with its cache of urls.

use distributed_wagering_pro.Persistence.World.{Platform, App, World, ReceivedMessage}
use distributed_wagering_pro.Kernel.Errors.{Result, ok, infrastructure, err}
use distributed_wagering_pro.Prelude.{
  Text, Option, List, ℕ, none, ◌≡◌, some, ◌∷◌, if◌then◌else◌, arith, text_eq, is_empty, ◌∙◌, [],
  refl, false, text_eq_refl, ap, ◌↔◌, Bool-cases, inl, inr,
}
use distributed_wagering_pro.Persistence.Effect.{throws, ◌>>=◌, pure, continue}
use distributed_wagering_pro.Messaging.Sqs.{SqsPort}

-- `map.get(name)`
abbrev pub cached_url : Text → List (Text × Text) → Option Text
cached_url name [] = none
cached_url name ((n, url) ∷ urls) = if text_eq n name then some url else cached_url name urls

module _ {P : Platform} where
  -- `this.client.send(command)`
  abbrev call : {A : Type 0} → (P.Queues → Result A × P.Queues) → App P A
  call command w = let (r, queues) = command w.queues in (r, record w { queues = queues })

  remember : Text → Text → App P Text
  remember name url w = (ok url, record w { queue_urls = (name, url) ∷ w.queue_urls })

  -- `if (!result.QueueUrl) throw …`; an empty url is falsy.
  found_url : Option Text → App P Text
  found_url none = throws infrastructure
  found_url (some url) = if is_empty url then throws infrastructure else pure url

  ask_url : Text → App P Text
  unfolding found_url remember
  ask_url name = do result ← call (P.get_queue_url name); url ← found_url result; remember name url

  from_cache : Text → Option Text → App P Text
  unfolding ask_url
  from_cache name none = ask_url name
  from_cache name (some url) = if is_empty url then ask_url name else pure url

  unfoldable pub resolve_queue_url : Text → App P Text
  unfolding from_cache
  resolve_queue_url name w = from_cache name (cached_url name w.queue_urls) w

  unfoldable pub send : Text → Text → Text → Text → App P (Unit {0})
  unfolding resolve_queue_url
  send queue body group id = do
    url ← resolve_queue_url queue
    call (
        P.send_message (record {
          queue_url = url;
          message_body = body;
          message_group_id = group;
          message_deduplication_id = id;
        }))

  unfoldable pub receive : Text → ℕ → ℕ → App P (List ReceivedMessage)
  unfolding resolve_queue_url
  receive queue max_messages wait_time_seconds = do
    url ← resolve_queue_url queue
    call (P.receive_message url max_messages wait_time_seconds)

  unfoldable pub delete : Text → Text → App P (Unit {0})
  unfolding resolve_queue_url
  delete queue receipt_handle = do
    url ← resolve_queue_url queue
    call (P.delete_message url receipt_handle)

  -- Past the cache.
  unfoldable pub check_connection : Text → App P (Unit {0})
  unfolding found_url
  check_connection queue = do result ← call (P.get_queue_url queue); url ← found_url result; pure tt

  resolve_queue_url-em : (name : Text) (w : World P) → (resolve_queue_url name w).1.em ≡ w.em
  unfolding resolve_queue_url
  resolve_queue_url-em name w = ground arith

  call_with_url-em :
      {A : Type 0} (command : Text → P.Queues → Result A × P.Queues) (name : Text) (w : World P)
      → ((resolve_queue_url name >>= λ url. call (command url)) w).1.em ≡ w.em
  call_with_url-em command name w =
      by_result (resolve_queue_url name w) ∙ resolve_queue_url-em name w
    where
      by_result :
          (r : Result Text × World P) → (continue (λ url. call (command url)) r).1.em ≡ r.1.em
      by_result (ok url, v) = refl
      by_result (err e, v) = refl

  -- What a found url leaves in the cache.
  from_cache-cached :
      (name url : Text) (o : Option Text) (w w' : World P)
      → cached_url name w.queue_urls ≡ o
      → from_cache name o w ≡ (ok url, w')
      → (cached_url name w'.queue_urls ≡ some url) × (is_empty url ≡ false)
  unfolding from_cache
  from_cache-cached name url none w w' c h = ground (arith, text_eq_refl name)
  from_cache-cached name url (some u) w w' c h = ground (arith, text_eq_refl name)

  -- A url that was found is in the cache: asking again gives it, and asks the service no more.
  pub resolve_queue_url-again :
      (name url : Text) (w w' : World P)
      → resolve_queue_url name w ≡ (ok url, w')
      → resolve_queue_url name w' ≡ (ok url, w')
  unfolding resolve_queue_url from_cache
  resolve_queue_url-again name url w w' h =
      let (cached, full) = from_cache-cached name url (cached_url name w.queue_urls) w w' refl h in
      ap (λ o. from_cache name o w') cached ∙ use_cached full
    where
      use_cached : is_empty url ≡ false → from_cache name (some url) w' ≡ (ok url, w')
      use_cached e = rw e refl

-- The client as the port.
pub sqs_client : (P : Platform) → SqsPort P
unfolding send receive delete
sqs_client P = record {
  send = send;
  receive = receive;
  delete = delete;
  check_connection = check_connection;
  send-em = λ queue body group id w.
      call_with_url-em
        (λ url. P.send_message (record {
          queue_url = url;
          message_body = body;
          message_group_id = group;
          message_deduplication_id = id;
        }))
        queue w;
  receive-em =
      λ queue n seconds w. call_with_url-em (λ url. P.receive_message url n seconds) queue w;
  delete-em = λ queue handle w. call_with_url-em (λ url. P.delete_message url handle) queue w;
}

-- The service names a url for the queue.
abbrev pub NamesQueue : (P : Platform) → Text → Result (Option Text) × P.Queues → Type 0
NamesQueue P queue r = (url : Text) × (r.0 ≡ ok (some url)) × (is_empty url ≡ false)

-- Asking for the connection goes through exactly where it does.
pub check_connection_iff :
    {P : Platform} (queue : Text) (w : World P)
    → (((sqs_client P).check_connection queue w).0 ≡ ok tt)
      ↔ NamesQueue P queue (P.get_queue_url queue w.queues)
unfolding sqs_client check_connection
check_connection_iff {P = P} queue w = by_answer (P.get_queue_url queue w.queues)
  where
    found : Option Text → App P (Unit {0})
    found result = do url ← found_url result; pure tt

    by_answer :
        (r : Result (Option Text) × P.Queues)
        → ((continue found (r.0, record w { queues = r.1 })).0 ≡ ok tt) ↔ NamesQueue P queue r
    by_answer (err e, queues) = (λ h. absurd (cc), λ (url, e', _). absurd (cc))
    by_answer (ok none, queues) = (λ h. absurd (cc), λ (url, e', _). absurd (cc))
    by_answer (ok (some url), queues) = elim (Bool-cases (is_empty url)) [
      | inl empty ↦ rw empty (λ h. absurd (cc), λ (url', e', full). absurd (cc (empty, e', full)))
      | inr full ↦ rw full (λ _. (url, refl, full), λ _. refl)
    ]
