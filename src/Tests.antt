-- ===== src/Tests.antt =====
-- Concrete states and runs of the modelled code, and each property at an input where its hypotheses
-- hold.
mod States
mod Slists
mod Ready
mod Ticks
mod Threads
mod Waiting
mod Mutexes
mod Mails
mod Pools
mod Messages
mod Clocks
mod Heaps
mod Bytes
mod Prints
mod Containers
