-- ===== src/Topology.antt =====
-- internal/queue/topology.go: the exchanges, queues and bindings that `DeclareTopology` declares
-- on the broker, and the names and keys that the publishers use. The broker is outside the
-- repository: `declare_all` asks a parameter whether it accepts a declaration, and `route` is the
-- documented rule of a topic or direct exchange for keys with no wildcard.
pub mod Routing
use Prim.Native.String.{◌++◌ as append}
use event_driven_notificatio.Prelude.{
  ℕ, ◌+◌, ◌*◌, ◌≡◌, refl, Bool, true, false, ◌&&◌, String, str_eq, List, [], ◌∷◌, ◌++◌, map, Option,
  none, some, arith, if◌then◌else◌, leb, ◌==◌,
}

abbrev pub exchange_main : String
exchange_main = "notifications.exchange"

abbrev pub exchange_dlx : String
exchange_dlx = "notifications.dlx"

abbrev pub max_priority : ℕ
max_priority = 10

-- RoutingKey
unfoldable pub routing_key : String → String
routing_key channel = append "notification." channel

-- WaitQueue
unfoldable pub wait_queue : String → String → String
wait_queue channel tier = append "notifications." (append channel (append ".wait." tier))

-- WaitTierForAttempt
unfoldable pub wait_tier_for_attempt : ℕ → String
wait_tier_for_attempt attempt = if leb attempt 1 then "5s" else if attempt == 2 then "30s" else "5m"

-- WaitQueueForAttempt
unfoldable pub wait_queue_for_attempt : String → ℕ → String
unfolding wait_queue wait_tier_for_attempt
wait_queue_for_attempt channel attempt = wait_queue channel (wait_tier_for_attempt attempt)

-- WaitRoutingKey
unfoldable pub wait_routing_key : String → String → String
unfolding routing_key
wait_routing_key channel tier = append (routing_key channel) (append ".wait." tier)

pub data Kind : Type 0 where
  topic direct : Kind

pub data Declaration : Type 0 where
  exchange : String → Kind → Declaration
  -- name, x-max-priority, x-message-ttl, x-dead-letter-exchange with its routing key
  queue : String → Option ℕ → Option ℕ → Option (String × String) → Declaration
  -- queue, key, exchange
  bind : String → String → String → Declaration

-- The main queue and the dead-letter queue of a channel.
unfoldable pub main_queue : String → String
main_queue channel = append "notifications." channel

unfoldable pub dlq : String → String
dlq channel = append "notifications." (append channel ".dlq")

unfoldable pub dead_key : String → String
dead_key channel = append channel ".dead"

unfoldable pub channel_declarations : String → List Declaration
unfolding routing_key main_queue dlq dead_key
channel_declarations ch =
    queue (main_queue ch) (some max_priority) none (some (exchange_dlx, dead_key ch))
    ∷ bind (main_queue ch) (routing_key ch) exchange_main
    ∷ queue (dlq ch) none none none
    ∷ bind (dlq ch) (dead_key ch) exchange_dlx
    ∷ []

abbrev pub tiers : List (String × ℕ)
tiers = ("5s", 5000) ∷ ("30s", 30000) ∷ ("5m", 5 * 60 * 1000) ∷ []

unfoldable pub tier_declarations : String → List (String × ℕ) → List Declaration
unfolding wait_queue routing_key
tier_declarations ch [] = []
tier_declarations ch ((name, ttl) ∷ rest) =
    queue (wait_queue ch name) none (some ttl) (some (exchange_main, routing_key ch))
    ∷ bind (wait_queue ch name) (append (routing_key ch) (append ".wait." name)) exchange_main
    ∷ tier_declarations ch rest

abbrev pub concat_map : (String → List Declaration) → List String → List Declaration
concat_map f [] = []
concat_map f (x ∷ xs) = f x ++ concat_map f xs

-- What `DeclareTopology` declares, in order. It walks the map of channels twice, and the order of
-- each walk is unspecified in Go: the two orders are the arguments.
unfoldable pub declarations : List String → List String → List Declaration
unfolding channel_declarations tier_declarations
declarations channels again =
    exchange exchange_main topic
    ∷ exchange exchange_dlx direct
    ∷ (concat_map channel_declarations channels
        ++ concat_map (λ ch. tier_declarations ch tiers) again)

-- The calls go on until the broker refuses one; the flag says that none was refused.
pub declare_all : (Declaration → Bool) → List Declaration → List Declaration × Bool
declare_all accepts [] = ([], true)
declare_all accepts (d ∷ ds) =
    let (done, all) = declare_all accepts ds in if accepts d then (d ∷ done, all) else ([], false)

-- DeclareTopology
unfoldable pub declare_topology :
    (Declaration → Bool) → List String → List String → List Declaration × Bool
unfolding declare_all declarations
declare_topology accepts channels again = declare_all accepts (declarations channels again)

-- The queues that an exchange hands a message with this key to.
unfoldable pub route : String → String → List Declaration → List String
route ex key [] = []
route ex key (bind q k e ∷ ds) =
    if str_eq e ex && str_eq k key then q ∷ route ex key ds else route ex key ds
route ex key (exchange _ _ ∷ ds) = route ex key ds
route ex key (queue _ _ _ _ ∷ ds) = route ex key ds

-- Where a queue sends what expires or is rejected.
unfoldable pub dead_letter_of : String → List Declaration → Option (String × String)
dead_letter_of name [] = none
dead_letter_of name (queue q _ _ d ∷ ds) = if str_eq q name then d else dead_letter_of name ds
dead_letter_of name (exchange _ _ ∷ ds) = dead_letter_of name ds
dead_letter_of name (bind _ _ _ ∷ ds) = dead_letter_of name ds
