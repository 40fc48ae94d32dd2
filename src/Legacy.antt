-- ===== src/Legacy.antt =====
-- legacy/myhttpd.cc: the course project that the server replaced. One process, one request for each
-- connection; what the C library and the kernel answer is an argument.
pub mod Sending
pub mod Target
pub mod Listing
pub mod Links
pub mod Replies
pub mod Client
pub mod Order
pub mod Access
pub mod Endings
pub mod Observed
pub mod Summary
pub mod Launch
