-- ===== src/Io/Mqtt/Subscription.antt =====
-- MqttSubscription and the delivery to subscriptions. `M` is the type of messages.
use Prim.Native.String.{String}
use py2to3_example_project.Prelude.{
  ℕ, ◌+◌, ◌<◌, ◌≡◌, refl, sym, ap, ◌∙◌, Option, none, some, List, [], ◌∷◌, arith, if◌then◌else◌,
  length, take, drop,
}
use py2to3_example_project.Prelude.Queue.{
  put_dropping, put_each, last_items, put_each-last_items, last_items_nil,
}
use py2to3_example_project.Io.Mqtt.Topics.{matches}

pub record Subscription (M : Type 0) : Type 0 where
  pub topic_filter : List String
  pub qos : ℕ
  pub maxq : ℕ
  pub queued : List M
  pub received : ℕ

module _ {M : Type 0} where
  unfoldable pub new_subscription : List String → (qos maxq : ℕ) → Subscription M
  new_subscription topic_filter qos maxq = record {
    topic_filter = topic_filter;
    qos = qos;
    maxq = maxq;
    queued = [];
    received = 0;
  }

  unfoldable pub enqueue : Subscription M → M → Subscription M
  unfolding put_dropping
  enqueue s msg = record s { queued = put_dropping s.maxq s.queued msg; received = s.received + 1 }

  -- Without a message in time the result is None.
  unfoldable pub get_message : Subscription M → Subscription M × Option M
  get_message s = elim s.queued [
    | [] ↦ (s, none)
    | msg ∷ rest ↦ (record s { queued = rest }, some msg)
  ]

  unfoldable pub drain : Subscription M → (limit : ℕ) → Subscription M × List M
  drain s limit = (record s { queued = drop limit s.queued }, take limit s.queued)

  -- The loop over the subscriptions for a message.
  unfoldable pub deliver : List (Subscription M) → (topic : List String) → M → List (Subscription M)
  unfolding enqueue matches
  deliver [] topic msg = []
  deliver (s ∷ subs) topic msg =
      let rest = deliver subs topic msg in
      if matches s.topic_filter topic then enqueue s msg ∷ rest else s ∷ rest

  unfoldable pub enqueue_all : Subscription M → List M → Subscription M
  unfolding enqueue
  enqueue_all s [] = s
  enqueue_all s (m ∷ ms) = enqueue_all (enqueue s m) ms

  enqueue_all-put_each :
      (s : Subscription M) (ms : List M)
      → ((enqueue_all s ms).queued ≡ put_each s.maxq s.queued ms)
        × ((enqueue_all s ms).received ≡ s.received + length ms)
  unfolding enqueue_all put_each
  enqueue_all-put_each s [] = (refl, omega arith)
  enqueue_all-put_each s (m ∷ ms) =
      let (queued, received) = enqueue_all-put_each (enqueue s m) ms in
      unfold enqueue in (queued, omega (arith, received))

  -- A new subscription with a bound keeps the last messages, as many as the bound, in the order in
  -- which they came, and counts all of them. A drain with a limit returns the oldest of those.
  pub enqueue_all-drain :
      (topic_filter : List String) (qos maxq limit : ℕ) (ms : List M)
      → 0 < maxq
      → ((enqueue_all (new_subscription topic_filter qos maxq) ms).received ≡ length ms)
        × ((enqueue_all (new_subscription topic_filter qos maxq) ms).queued ≡ last_items maxq ms)
        × ((drain (enqueue_all (new_subscription topic_filter qos maxq) ms) limit).1
            ≡ take limit (last_items maxq ms))
  unfolding drain new_subscription
  enqueue_all-drain topic_filter qos maxq limit ms p =
      let (queued, received) = enqueue_all-put_each (new_subscription topic_filter qos maxq) ms in
      let kept =
        queued
        ∙ ap (λ q. put_each maxq q ms) (sym (last_items_nil maxq))
        ∙ put_each-last_items maxq [] ms p in
      (omega (arith, received), kept, ap (λ q. take limit q) kept)
