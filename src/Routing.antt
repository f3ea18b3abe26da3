-- ===== src/Routing.antt =====
-- agent/core/messages.py and agent/core/router.py: `Message` has the messages, `DeadLetters` and
-- `Persistence` the two stores of the router, `Queue` its priority queue and `Router` the class
-- MessageRouter.
pub mod Message
pub mod DeadLetters
pub mod Persistence
pub mod Queue
pub mod Router
