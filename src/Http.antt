-- ===== src/Http.antt =====
-- maniphttp: the manipulator behind HTTP. Its parts: Urls, Headers (with what answers put back into
-- the context), Parameters (of the query), Exchange (one try of a
-- request), Send (the tries), Operations, Making (the options and `New`), Renewal (of the token, with
-- the subscriptions that are notified), Direct (`DirectSend` and `BatchCreate`) and Subscribing (what
-- a subscription is made with).
pub mod Urls
pub mod Headers
pub mod Parameters
pub mod Exchange
pub mod Send
pub mod Operations
pub mod Making
pub mod Renewal
pub mod Direct
pub mod Subscribing
