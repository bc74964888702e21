-- ===== src/Dummies/Pool.antt =====
-- hyper-fast-path/src/dummies.rs: `raise_fd_limit`, `conn_key` and the quarantine of `recycle`.
-- The kernel's calls and the resets of the sockets are parameters; a host's byte order is
-- little-endian.
use hyper_fast_path.Prelude.{
  ℕ, ◌+◌, ◌*◌, ◌/◌, ◌%◌, ◌^◌, ◌≤◌, ◌<◌, ◌≡◌, refl, Bool, true, [], ◌∷◌, Option, none, some, length,
  replicate, get_or, ltb, leb, arith, if◌then◌else◌, Bool-cases, inl, inr, some_eq, none-some,
}
use hyper_fast_path.Prelude.Bytes.{Bytes, copy_at}

-- `libc::rlimit`.
pub record Rlimit : Type 0 where
  pub rlim_cur : ℕ
  pub rlim_max : ℕ

-- What `raise_fd_limit` did: the limit was read as high enough, or it was raised, or it failed.
pub data Raised : Type 0 where
  enough raised : Rlimit → Raised
  os_error : Raised
  too_low : ℕ → Raised

-- `raise_fd_limit`, on what `getrlimit` gives and on `setrlimit`, which says whether it succeeds.
unfoldable pub raise_fd_limit : Option Rlimit → (Rlimit → Bool) → ℕ → Raised
raise_fd_limit none setrlimit needed = os_error
raise_fd_limit (some limit) setrlimit needed =
    if leb needed limit.rlim_cur
    then enough limit
    else if ltb limit.rlim_max needed
    then too_low limit.rlim_max
    else (let limit' = record limit { rlim_cur = limit.rlim_max } in
        if setrlimit limit' then raised limit' else os_error)

-- What a result promises of a process that needs so many descriptors.
abbrev pub Suffices : ℕ → Option Rlimit → (Rlimit → Bool) → Raised → Type 0
Suffices needed limit setrlimit (enough l) = (limit ≡ some l) × (needed ≤ l.rlim_cur)
Suffices needed limit setrlimit (raised l) =
    (setrlimit l ≡ true) × (needed ≤ l.rlim_cur) × (l.rlim_cur ≡ l.rlim_max)
Suffices needed limit setrlimit os_error = Unit {0}
Suffices needed limit setrlimit (too_low hard) = hard < needed

-- A success means that the soft limit is at least what is needed: it was, or it was set to the hard
-- limit; a refusal as too low means that the hard limit is below what is needed.
pub raise_fd_limit_lem :
    (limit : Option Rlimit) (setrlimit : Rlimit → Bool) (needed : ℕ)
    → Suffices needed limit setrlimit (raise_fd_limit limit setrlimit needed)
unfolding raise_fd_limit
raise_fd_limit_lem none setrlimit needed = tt
raise_fd_limit_lem (some l) setrlimit needed = elim (Bool-cases (leb needed l.rlim_cur)) [
  | inl e ↦ rw e (refl, ground (arith, e))
  | inr few ↦ elim (Bool-cases (ltb l.rlim_max needed)) [
    | inl e ↦ rw (few, e) (ground (arith, e))
    | inr e ↦ elim (Bool-cases (setrlimit (record l { rlim_cur = l.rlim_max }))) [
      | inl s ↦ rw (few, e, s) (s, ground (arith, e), refl)
      | inr s ↦ rw (few, e, s) tt
    ]
  ]
]

-- A socket's address: an IPv4 one has four octets and a port.
pub data SocketAddr : Type 0 where
  v4 : ℕ → ℕ → ℕ → ℕ → ℕ → SocketAddr
  v6 : SocketAddr

-- `u32::to_ne_bytes`.
unfoldable pub to_ne_bytes : ℕ → Bytes
to_ne_bytes n = (n % 256) ∷ ((n / 256) % 256) ∷ ((n / 65536) % 256) ∷ ((n / 16777216) % 256) ∷ []

-- `conn_key`: `struct ip4_conn`; `none` is the error for an address that is not IPv4.
unfoldable pub conn_key : SocketAddr → SocketAddr → Option Bytes
unfolding copy_at to_ne_bytes
conn_key (v4 a b c d port) (v4 e f g h remote) = some (
    copy_at
      (copy_at (copy_at (copy_at (replicate 16 0) 0 (a ∷ b ∷ c ∷ d ∷ [])) 4 (to_ne_bytes port)) 8
        (e ∷ f ∷ g ∷ h ∷ []))
      12 (to_ne_bytes remote))
conn_key _ _ = none

-- The address at a place of a key, as the eBPF program's `struct ip4_conn` has it.
unfoldable pub addr_at : ℕ → Bytes → SocketAddr
addr_at i key =
    v4 (get_or key i 0) (get_or key (i + 1) 0) (get_or key (i + 2) 0) (get_or key (i + 3) 0) (
      get_or key (i + 4) 0
      + get_or key (i + 5) 0 * 256
      + get_or key (i + 6) 0 * 65536
      + get_or key (i + 7) 0 * 16777216)

abbrev HasPort : SocketAddr → Type 0
HasPort (v4 a b c d port) = port < 2 ^ 16
HasPort v6 = Unit {0}

four_bytes :
    (n : ℕ)
    → n < 2 ^ 16
    → n % 256 + (n / 256) % 256 * 256 + (n / 65536) % 256 * 65536 + (n / 16777216) % 256 * 16777216
      ≡ n
four_bytes n h = omega arith

-- The key of two addresses whose ports are 16 bit numbers is 16 bytes, from which both addresses
-- are read back.
pub conn_key-addr_at :
    (local remote : SocketAddr) (key : Bytes)
    → HasPort local
    → HasPort remote
    → conn_key local remote ≡ some key
    → (length key ≡ 16) × (addr_at 0 key ≡ local) × (addr_at 8 key ≡ remote)
unfolding conn_key addr_at copy_at to_ne_bytes
conn_key-addr_at (v4 a b c d port) (v4 e f g h remote) key p q s =
    rw (← some_eq _ _ s) (refl, rw (four_bytes port p) refl, rw (four_bytes remote q) refl)
conn_key-addr_at v6 _ key p q s = absurd (none-some _ s)
conn_key-addr_at (v4 a b c d port) v6 key p q s = absurd (none-some _ s)
