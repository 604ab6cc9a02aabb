-- ===== src/Payload.antt =====
-- Large payloads of tests: deferred construction (framework/lazy_payload.py) and the limit on what
-- the parametrized data may hold (framework/large_payload_guard.py).
pub mod Lazy
pub mod Guard
