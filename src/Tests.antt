-- ===== src/Tests.antt =====
-- Concrete machines and runs of the code on them, to which the general statements are applied.
mod Machine
mod Lists
mod Threads
mod Locks
mod Numbers
mod Exclusion
mod Queues
mod Bits
mod Clock
mod Memory
mod Hashes
mod Files
mod Creation
