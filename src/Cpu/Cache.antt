-- ===== src/Cpu/Cache.antt =====
-- Data and instruction caches (src/cpu/cache.rs). `mem` is what data accesses see, and `fetched`
-- what instruction fetches see: a store changes the first alone until its line is synced.
use v5gdb.Base.{ℕ, ◌/◌, ◌==◌, ◌≡◌, if◌then◌else◌, Memory}

pub record Machine : Type 0 where
  pub mem : Memory
  pub fetched : Memory

-- `CacheTarget::Address`: the line of 32 bytes that holds the address.
pub data CacheTarget : Type 0 where
  address : ℕ → CacheTarget

abbrev pub line : CacheTarget → ℕ
line (address a) = a / 32

-- `clean_dcache_to_unification` then `invalidate_icache`: fetches from the line see its data.
unfoldable pub sync_instruction : CacheTarget → Machine → Machine
sync_instruction t s = record s { fetched = λ a. if a / 32 == line t then s.mem a else s.fetched a }

-- Every instruction fetch sees the data.
abbrev pub IsCoherent : Machine → Type 0
IsCoherent s = (a : ℕ) → s.fetched a ≡ s.mem a
