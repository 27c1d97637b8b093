-- ===== src/Http.antt =====
-- http.py: the retrying client. Times are in milliseconds. What the network answers to the attempts
-- of one call is a parameter, and so is the jitter that `random.uniform` gives.
pub mod Response
pub mod Backoff
pub mod Request
