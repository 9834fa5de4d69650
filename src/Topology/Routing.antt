-- ===== src/Topology/Routing.antt =====
-- Where the declared topology takes a message (internal/queue/topology.go).
use event_driven_notificatio.Prelude.{
  ◌≡◌, refl, ◌∙◌, Bool, true, false, String, str_eq, List, [], ◌∷◌, ◌++◌, Option, none, some, arith,
  if◌then◌else◌,
}
use event_driven_notificatio.Topology.{
  declarations, declare_topology, declare_all, route, dead_letter_of, exchange_main, exchange_dlx,
  routing_key, wait_routing_key, wait_queue, main_queue, dlq, dead_key, Declaration, Kind, topic,
  direct, exchange, queue, bind, concat_map, channel_declarations, tier_declarations, tiers,
}

-- The orders in which the map of the three channels can be walked.
pub data IsOrder : List String → Type 0 where
  sms_email_push : IsOrder ("sms" ∷ "email" ∷ "push" ∷ [])
  sms_push_email : IsOrder ("sms" ∷ "push" ∷ "email" ∷ [])
  email_sms_push : IsOrder ("email" ∷ "sms" ∷ "push" ∷ [])
  email_push_sms : IsOrder ("email" ∷ "push" ∷ "sms" ∷ [])
  push_sms_email : IsOrder ("push" ∷ "sms" ∷ "email" ∷ [])
  push_email_sms : IsOrder ("push" ∷ "email" ∷ "sms" ∷ [])

pub data IsChannel : String → Type 0 where
  sms : IsChannel "sms"
  email : IsChannel "email"
  push : IsChannel "push"

pub data IsTier : String → Type 0 where
  short : IsTier "5s"
  medium : IsTier "30s"
  long : IsTier "5m"

-- A message published for a wait tier enters the one queue of its channel and tier, expires from
-- there to the main exchange under the key of its channel, and so returns to its main queue.
-- What the main queue rejects goes to the dead-letter queue of the channel.
pub record Bounces (ds : List Declaration) (ch tier : String) : Type 0 where
  pub waits : route exchange_main (wait_routing_key ch tier) ds ≡ wait_queue ch tier ∷ []
  pub expires : dead_letter_of (wait_queue ch tier) ds ≡ some (exchange_main, routing_key ch)
  pub returns : route exchange_main (routing_key ch) ds ≡ main_queue ch ∷ []
  pub rejects : dead_letter_of (main_queue ch) ds ≡ some (exchange_dlx, dead_key ch)
  pub buried : route exchange_dlx (dead_key ch) ds ≡ dlq ch ∷ []

route-append :
    (ex key : String) (xs ys : List Declaration)
    → route ex key (xs ++ ys) ≡ route ex key xs ++ route ex key ys
unfolding route
route-append ex key [] ys = refl
route-append ex key (bind q k e ∷ ds) ys = ground (arith, route-append ex key ds ys)
route-append ex key (exchange _ _ ∷ ds) ys = route-append ex key ds ys
route-append ex key (queue _ _ _ _ ∷ ds) ys = route-append ex key ds ys

abbrev pub or_else : Option (String × String) → Option (String × String) → Option (String × String)
or_else none o = o
or_else (some d) o = some d

-- Whether a queue is declared.
abbrev pub declares : String → List Declaration → Bool
declares name [] = false
declares name (queue q _ _ _ ∷ ds) = if str_eq q name then true else declares name ds
declares name (exchange _ _ ∷ ds) = declares name ds
declares name (bind _ _ _ ∷ ds) = declares name ds

dead_letter_of-append :
    (name : String) (xs ys : List Declaration)
    → dead_letter_of name (xs ++ ys)
      ≡ (if declares name xs then dead_letter_of name xs else dead_letter_of name ys)
unfolding dead_letter_of
dead_letter_of-append name [] ys = refl
dead_letter_of-append name (queue q _ _ _ ∷ ds) ys =
    ground (arith, dead_letter_of-append name ds ys)
dead_letter_of-append name (exchange _ _ ∷ ds) ys = dead_letter_of-append name ds ys
dead_letter_of-append name (bind _ _ _ ∷ ds) ys = dead_letter_of-append name ds ys

-- What the first walk declares for a channel, and the second.
abbrev pub FirstWalk : List Declaration → String → String → Type 0
FirstWalk ds ch tier =
    (route exchange_main (wait_routing_key ch tier) ds ≡ [])
    × (declares (wait_queue ch tier) ds ≡ false)
    × (route exchange_main (routing_key ch) ds ≡ main_queue ch ∷ [])
    × (declares (main_queue ch) ds ≡ true)
    × (dead_letter_of (main_queue ch) ds ≡ some (exchange_dlx, dead_key ch))
    × (route exchange_dlx (dead_key ch) ds ≡ dlq ch ∷ [])

abbrev pub SecondWalk : List Declaration → String → String → Type 0
SecondWalk ds ch tier =
    (route exchange_main (wait_routing_key ch tier) ds ≡ wait_queue ch tier ∷ [])
    × (dead_letter_of (wait_queue ch tier) ds ≡ some (exchange_main, routing_key ch))
    × (route exchange_main (routing_key ch) ds ≡ [])
    × (route exchange_dlx (dead_key ch) ds ≡ [])

first_walk :
    {ch tier : String} {order : List String}
    → IsChannel ch
    → IsTier tier
    → IsOrder order
    → FirstWalk (concat_map channel_declarations order) ch tier
unfolding route channel_declarations dead_letter_of wait_routing_key wait_queue main_queue dlq
    dead_key
first_walk sms short sms_email_push = (refl, refl, refl, refl, refl, refl)
first_walk sms short _ = (refl, refl, refl, refl, refl, refl)
first_walk sms medium sms_email_push = (refl, refl, refl, refl, refl, refl)
first_walk sms medium _ = (refl, refl, refl, refl, refl, refl)
first_walk sms long sms_email_push = (refl, refl, refl, refl, refl, refl)
first_walk sms long _ = (refl, refl, refl, refl, refl, refl)
first_walk email short sms_email_push = (refl, refl, refl, refl, refl, refl)
first_walk email short _ = (refl, refl, refl, refl, refl, refl)
first_walk email medium sms_email_push = (refl, refl, refl, refl, refl, refl)
first_walk email medium _ = (refl, refl, refl, refl, refl, refl)
first_walk email long sms_email_push = (refl, refl, refl, refl, refl, refl)
first_walk email long _ = (refl, refl, refl, refl, refl, refl)
first_walk push short sms_email_push = (refl, refl, refl, refl, refl, refl)
first_walk push short _ = (refl, refl, refl, refl, refl, refl)
first_walk push medium sms_email_push = (refl, refl, refl, refl, refl, refl)
first_walk push medium _ = (refl, refl, refl, refl, refl, refl)
first_walk push long sms_email_push = (refl, refl, refl, refl, refl, refl)
first_walk push long _ = (refl, refl, refl, refl, refl, refl)

second_walk :
    {ch tier : String} {order : List String}
    → IsChannel ch
    → IsTier tier
    → IsOrder order
    → SecondWalk (concat_map (λ ch. tier_declarations ch tiers) order) ch tier
unfolding route tier_declarations dead_letter_of wait_routing_key wait_queue main_queue dlq dead_key
second_walk sms short sms_email_push = (refl, refl, refl, refl)
second_walk sms short _ = (refl, refl, refl, refl)
second_walk sms medium sms_email_push = (refl, refl, refl, refl)
second_walk sms medium _ = (refl, refl, refl, refl)
second_walk sms long sms_email_push = (refl, refl, refl, refl)
second_walk sms long _ = (refl, refl, refl, refl)
second_walk email short sms_email_push = (refl, refl, refl, refl)
second_walk email short _ = (refl, refl, refl, refl)
second_walk email medium sms_email_push = (refl, refl, refl, refl)
second_walk email medium _ = (refl, refl, refl, refl)
second_walk email long sms_email_push = (refl, refl, refl, refl)
second_walk email long _ = (refl, refl, refl, refl)
second_walk push short sms_email_push = (refl, refl, refl, refl)
second_walk push short _ = (refl, refl, refl, refl)
second_walk push medium sms_email_push = (refl, refl, refl, refl)
second_walk push medium _ = (refl, refl, refl, refl)
second_walk push long sms_email_push = (refl, refl, refl, refl)
second_walk push long _ = (refl, refl, refl, refl)

both_walks :
    (xs ys : List Declaration) (ch tier : String)
    → FirstWalk xs ch tier
    → SecondWalk ys ch tier
    → Bounces (xs ++ ys) ch tier
both_walks xs ys ch tier (w1, w2, w3, w4, w5, w6) (v1, v2, v3, v4) = record {
  waits = route-append exchange_main (wait_routing_key ch tier) xs ys ∙ rw (w1, v1) refl;
  expires = dead_letter_of-append (wait_queue ch tier) xs ys ∙ rw (w2, v2) refl;
  returns = route-append exchange_main (routing_key ch) xs ys ∙ rw (w3, v3) refl;
  rejects = dead_letter_of-append (main_queue ch) xs ys ∙ rw (w4, w5) refl;
  buried = route-append exchange_dlx (dead_key ch) xs ys ∙ rw (w6, v4) refl;
}

after_exchanges :
    (a b : String) (j k : Kind) (ds : List Declaration) (ch tier : String)
    → Bounces ds ch tier
    → Bounces (exchange a j ∷ exchange b k ∷ ds) ch tier
unfolding route dead_letter_of
after_exchanges a b j k ds ch tier h = record {
  waits = h.waits;
  expires = h.expires;
  returns = h.returns;
  rejects = h.rejects;
  buried = h.buried;
}

declared_all : (ds : List Declaration) → declare_all (λ _. true) ds ≡ (ds, true)
unfolding declare_all
declared_all [] = refl
declared_all (d ∷ ds) = ground (arith, declared_all ds)

-- When the broker refuses nothing, `DeclareTopology` succeeds, and whatever the orders of its two
-- walks over the channels, what it has declared routes as follows. For each channel and tier, a
-- message published under the wait key lands in exactly the wait queue of that channel and tier;
-- that queue dead-letters to the main exchange under the channel's routing key, which leads to
-- exactly the channel's main queue; and the main queue dead-letters to exactly the channel's
-- dead-letter queue.
pub declare_topology-Bounces :
    {ch tier : String} {first second : List String}
    → IsChannel ch
    → IsTier tier
    → IsOrder first
    → IsOrder second
    → let (ds, ok) = declare_topology (λ _. true) first second in (ok ≡ true) × Bounces ds ch tier
unfolding declare_topology declarations
declare_topology-Bounces {ch} {tier} {first} {second} c t o o' =
    let xs = concat_map channel_declarations first in
    let ys = concat_map (λ ch'. tier_declarations ch' tiers) second in
    rw (declared_all (xs ++ ys)) (
      refl,
      after_exchanges exchange_main exchange_dlx topic direct (xs ++ ys) ch tier
          (both_walks xs ys ch tier (first_walk c t o) (second_walk c t o')),
    )
