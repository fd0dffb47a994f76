-- ===== src/Tests.antt =====
-- The theorems at concrete inputs, over a platform of lists.
mod Toy
mod Requests
mod Arenas
mod Delivery
mod Lists
mod Workers
mod Masters
mod System
mod Sending
mod Tables
mod Verdicts
