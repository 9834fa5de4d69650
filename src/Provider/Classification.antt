-- ===== src/Provider/Classification.antt =====
-- Which outcomes of the provider call (internal/provider/httpclient.go) are retried.
use event_driven_notificatio.Prelude.{
  ℕ, ◌≤◌, ◌<◌, ◌≡◌, ◌≢◌, ◌↔◌, ◌⊎◌, Bool, true, false, String, arith,
}
use event_driven_notificatio.Store.{Bytes}
use event_driven_notificatio.Provider.{
  Transport, ssrf, RetryAfter, Outcome, not_built, not_sent, answered, Sent, accepted, rejected,
  send, is_retryable,
}

abbrev pub is_accepted : Sent → Bool
is_accepted (accepted _) = true
is_accepted (rejected _) = false

abbrev pub is_retried : Sent → Bool
is_retried (accepted _) = false
is_retried (rejected e) = is_retryable e.kind

-- For every answer of the provider: it counts as accepted exactly on a 2xx status, and as a
-- retryable failure exactly on 408, 429 or a status from 500 up.
send-answered :
    (parse : Bytes → String × String) (now code : ℕ) (h : RetryAfter) (body : Bytes)
    → ((is_accepted (send parse now (answered code h body)) ≡ true) ↔ ((200 ≤ code) × (code < 300)))
      × ((is_retried (send parse now (answered code h body)) ≡ true)
          ↔ ((code ≡ 408) ⊎ ((code ≡ 429) ⊎ (500 ≤ code))))
unfolding send is_retryable
send-answered parse now code h body = ground arith

-- Without an answer nothing is accepted; a transport failure is retried unless the SSRF guard blocked
-- the address, and a request that could not be built is not.
send_unanswered :
    (parse : Bytes → String × String) (now : ℕ) (t : Transport)
    → (is_accepted (send parse now (not_sent t)) ≡ false)
      × ((is_retried (send parse now (not_sent t)) ≡ true) ↔ (t ≢ ssrf))
      × (is_accepted (send parse now not_built) ≡ false)
      × (is_retried (send parse now not_built) ≡ false)
unfolding send is_retryable
send_unanswered parse now t = ground arith

abbrev pub IsRetried : Outcome → Type 0
IsRetried not_built = ⊥
IsRetried (not_sent t) = t ≢ ssrf
IsRetried (answered code h body) = (code ≡ 408) ⊎ ((code ≡ 429) ⊎ (500 ≤ code))

abbrev pub IsAccepted : Outcome → Type 0
IsAccepted (answered code h body) = (200 ≤ code) × (code < 300)
IsAccepted _ = ⊥

-- For every outcome of the call of the provider: it counts as accepted exactly on an answer with a
-- 2xx status, and as a retryable failure exactly on an answer with 408, 429 or a status from 500 up,
-- or on a transport failure other than a block by the SSRF guard. So a request that could not be
-- built is neither.
pub send_lem :
    (parse : Bytes → String × String) (now : ℕ) (o : Outcome)
    → ((is_accepted (send parse now o) ≡ true) ↔ IsAccepted o)
      × ((is_retried (send parse now o) ≡ true) ↔ IsRetried o)
unfolding send is_retryable
send_lem parse now not_built = ground arith
send_lem parse now (not_sent t) = (ground arith, (send_unanswered parse now t).1)
send_lem parse now (answered code h body) = send-answered parse now code h body
