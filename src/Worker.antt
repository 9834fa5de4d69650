-- ===== src/Worker.antt =====
-- internal/worker: the delivery pipeline. Calls holds its data and the outcomes of its external
-- calls, Gate the rate-limit loop, Deliver the provider call and what follows, Handle the whole
-- handler; the other modules prove.
pub mod Calls
pub mod Gate
pub mod Deliver
pub mod Handle
