-- ===== src/Tests.antt =====
-- The theorems at concrete inputs.
mod Data
mod Bytes
mod Wire
mod Transport
mod Flow
mod Requests
mod Names
mod Exchange
mod Negotiation
mod Login
mod Sealed
mod RoundTrip
mod Hello
mod Keys
