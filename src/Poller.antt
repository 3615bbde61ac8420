-- ===== src/Poller.antt =====
-- tools/poller: channels, and the two pollers that wait for their events.
pub mod Channel
pub mod Poll
pub mod EPoll
pub mod Choice
mod Tests
