-- ===== src/Kernel/Lending.antt =====
-- hyper-fast-path/src/fast_path.bpf.c, lines 1134 to 1256: dummies are lent to connections and taken
-- back. Which calls of the kernel fail is a parameter, and so is the address of the server.
use hyper_fast_path.Prelude.{
  ℕ, Bool, true, false, ◌||◌, ◌&&◌, List, [], ◌∷◌, ◌++◌, Option, none, some, ◌≡◌, ◌==◌,
  if◌then◌else◌,
}
use hyper_fast_path.Prelude.Bytes.{Bytes, bytes_eq}
use hyper_fast_path.Kernel.HandOver.{Conn}

-- `struct dummy_owner`.
pub record Owner : Type 0 where
  pub conn : Bytes
  pub active : Bool

-- The maps. `conn_dummy` is a list of its entries; `released_dummies` is what was put into the ring
-- buffer; `conns` is `upgraded_conns`, `flow_ctl` and `dt_dirty`.
pub record Pool : Type 0 where
  pub free_dummies : List ℕ
  pub conn_dummy : List (Bytes × ℕ)
  pub dummy_owners : ℕ → Owner
  pub released_dummies : List ℕ
  pub sock_map : Bytes → Bool
  pub conns : Bytes → Conn

-- Which calls fail; `delete_fails` and `disown_fails` are the calls on `conn_dummy` and `dummy_owners`
-- with which a dummy is taken back, whose results the program does not look at.
pub record Faults : Type 0 where
  pub owner_fails : Bool
  pub conn_fails : Bool
  pub flags_fail : Bool
  pub sock_fails : Bool
  pub delete_fails : Bool
  pub disown_fails : Bool
  pub push_fails : Bool
  pub output_fails : Bool

abbrev pub no_conn : Conn
no_conn = record { state = none; flow = none; dirty = false }

unfoldable pub lookup : Bytes → List (Bytes × ℕ) → Option ℕ
lookup key [] = none
lookup key ((k, i) ∷ rest) = if bytes_eq key k then some i else lookup key rest

unfoldable pub delete : Bytes → List (Bytes × ℕ) → List (Bytes × ℕ)
delete key [] = []
delete key ((k, i) ∷ rest) = if bytes_eq key k then delete key rest else (k, i) ∷ delete key rest

abbrev pub set_owner : (ℕ → Owner) → ℕ → Owner → ℕ → Owner
set_owner owners dummy owner i = if i == dummy then owner else owners i

abbrev pub set_at : {A : Type 0} → (Bytes → A) → Bytes → A → Bytes → A
set_at m key a k = if bytes_eq k key then a else m k

-- The two calls with which a dummy is taken back.
abbrev pub unlent : Faults → ℕ → Bytes → Pool → Pool
unlent f dummy key p = record p {
  conn_dummy = if f.delete_fails then p.conn_dummy else delete key p.conn_dummy;
  dummy_owners =
      if f.disown_fails
      then p.dummy_owners
      else set_owner p.dummy_owners dummy (record { conn = key; active = false });
}

-- The `release` label of `add_conn`.
abbrev pub release : Faults → ℕ → Bytes → Pool → Pool
release f dummy key p = record (unlent f dummy key p) {
  free_dummies = if f.push_fails then p.free_dummies else p.free_dummies ++ dummy ∷ [];
}

-- The first two updates of `add_conn`, the second only behind the first.
abbrev pub entered : Faults → ℕ → Bytes → Pool → Pool
entered f dummy key p = record p {
  conn_dummy =
      if f.owner_fails || f.conn_fails
      then p.conn_dummy
      else (key, dummy) ∷ delete key p.conn_dummy;
  dummy_owners =
      if f.owner_fails
      then p.dummy_owners
      else set_owner p.dummy_owners dummy (record { conn = key; active = true });
}

-- `add_conn` behind the pop.
abbrev pub lend : Faults → ℕ → Bytes → Pool → Pool
lend f dummy key p =
    let lent = entered f dummy key p in
    if (f.owner_fails || f.conn_fails) || (f.flags_fail || f.sock_fails)
    then release f dummy key lent
    else record lent { sock_map = set_at p.sock_map key true }

-- `add_conn`.
unfoldable pub add_conn : Faults → Bytes → Pool → Pool
add_conn f key p = elim p.free_dummies [
  | [] ↦ p
  | dummy ∷ rest ↦ lend f dummy key (record p { free_dummies = rest })
]

-- `remove_conn` of a connection that was lent a dummy.
abbrev pub take_back : Faults → ℕ → Bytes → Pool → Pool
take_back f dummy key p = record (unlent f dummy key p) {
  released_dummies =
      if f.output_fails then p.released_dummies else p.released_dummies ++ dummy ∷ [];
  conns = set_at p.conns key no_conn;
}

-- `remove_conn`.
unfoldable pub remove_conn : Faults → Bytes → Pool → Pool
remove_conn f key p = elim (lookup key p.conn_dummy) [
  | none ↦ p
  | some dummy ↦ take_back f dummy key p
]

-- The callbacks that `monitor_sockets` acts on: a connection that was accepted, with its local
-- address and port, and one that changed its state, with whether it is closed.
pub data Callback : Type 0 where
  established : ℕ → ℕ → Callback
  changed : Bool → Callback
  other : Callback

-- `monitor_sockets`, for a server at this address and port.
unfoldable pub monitor_sockets : ℕ → ℕ → Faults → Callback → Bytes → Pool → Pool
monitor_sockets ip4 port f other key p = p
monitor_sockets ip4 port f (changed closed) key p = if closed then remove_conn f key p else p
monitor_sockets ip4 port f (established local_ip4 local_port) key p =
    if (ip4 == 0 || local_ip4 == ip4) && local_port == port then add_conn f key p else p

-- What `skb_verdict` returns: a drop, a pass to user space, or the dummy that the sk_buff goes to.
pub data SkbVerdict : Type 0 where
  skb_dropped skb_passed : SkbVerdict
  sent_on : ℕ → SkbVerdict

abbrev pub skb_verdict_on : ℕ → Option ℕ → SkbVerdict
skb_verdict_on len none = skb_dropped
skb_verdict_on len (some dummy) = if len == 0 then skb_passed else sent_on dummy

-- `skb_verdict`, on an sk_buff of so many bytes of a connection.
unfoldable pub skb_verdict : Pool → Bytes → ℕ → SkbVerdict
skb_verdict p key len = skb_verdict_on len (lookup key p.conn_dummy)

-- What happens to the maps: a callback, and the recycler of user space, which puts a released dummy
-- back or loses it. The kernel deletes an entry of a map that is there, whatever else fails.
pub data Step (ip4 port : ℕ) : Pool → Pool → Type 0 where
  calls_back :
      (f : Faults) (c : Callback) (key : Bytes) (p : Pool)
      → f.delete_fails ≡ false
      → Step ip4 port p (monitor_sockets ip4 port f c key p)
  puts_back :
      (dummy : ℕ) (rest : List ℕ) (p : Pool)
      → p.released_dummies ≡ dummy ∷ rest
      → Step ip4 port p
          (record p { released_dummies = rest; free_dummies = p.free_dummies ++ dummy ∷ [] })
  loses :
      (dummy : ℕ) (rest : List ℕ) (p : Pool)
      → p.released_dummies ≡ dummy ∷ rest
      → Step ip4 port p (record p { released_dummies = rest })

-- Any number of steps.
pub data Reaches (ip4 port : ℕ) : Pool → Pool → Type 0 where
  here : (p : Pool) → Reaches ip4 port p p
  then_step : {p q r : Pool} → Reaches ip4 port p q → Step ip4 port q r → Reaches ip4 port p r
