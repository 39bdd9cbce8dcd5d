-- ===== src/Payload.antt =====
-- engine/payload.go: the strict one-pass scanner over a payload's JSON bytes.
pub mod Token
pub mod Scalar
pub mod Skip
pub mod Unicode
pub mod Unquote
pub mod Recoded
pub mod Walk
pub mod Agree
pub mod Total
pub mod Verdict
pub mod Cut
