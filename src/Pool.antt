-- ===== src/Pool.antt =====
-- internal/grpcclient/pool.go. A connection is the number of its dial, and the client made from it has
-- the same number; `closed` lists the connections that were closed. Each block under `mu` is one
-- step, and GetOrCreate dials between two of them. gRPC is not in the repository: how a dial ends is an
-- argument.
pub mod Keyed
pub mod Balance
use Prim.Native.String.{◌++◌ as ◌<>◌}
use mini_bk.Prelude.{
  ℕ, zero, suc, ◌+◌, String, List, [], ◌∷◌, ◌++◌, Option, none, some, Bool, length,
}
use mini_bk.Prelude.Maps.{lookup, insert, remove}
use mini_bk.Model.Errors.{Failure, wrapped, Result, ok, err}

pub record Pool : Type 0 where
  pub clients : List (String × ℕ)
  pub conns : List (String × ℕ)
  pub dialed : ℕ
  pub closed : List ℕ

unfoldable pub new_pool : Pool
new_pool = record { clients = []; conns = []; dialed = 0; closed = [] }

-- `conn.Close()`
abbrev pub close_conn : ℕ → Pool → Pool
close_conn conn p = record p { closed = conn ∷ p.closed }

unfoldable pub dial : String → String → Option Failure → Pool → Result ℕ × Pool
dial id addr (some e) p = (err (wrapped ("dial agent " <> (id <> (" at " <> addr))) e), p)
dial id addr none p = (ok p.dialed, record p { dialed = suc p.dialed })

-- The block under the write lock: the client to return.
unfoldable pub settle : String → ℕ → Pool → ℕ × Pool
settle id conn p = elim (lookup id p.clients) [
  | some existing ↦ (existing, close_conn conn p)
  | none ↦ (conn, record p { clients = insert id conn p.clients; conns = insert id conn p.conns })
]

-- `others` is what other goroutines do to the pool during the dial.
unfoldable pub get_or_create :
    String → String → Option Failure → (Pool → Pool) → Pool → Result ℕ × Pool
get_or_create id addr reply others p = elim (lookup id p.clients) [
  | some client ↦ (ok client, p)
  | none ↦
      let (r, p1) = dial id addr reply p in
      let p2 = others p1 in
      elim r [
        | err e ↦ (err e, p2)
        | ok conn ↦ let (client, p3) = settle id conn p2 in (ok client, p3)
      ]
]

unfoldable pub remove_node : String → Pool → Pool
remove_node id p = elim (lookup id p.conns) [
  | none ↦ record p { clients = remove id p.clients }
  | some conn ↦
      let p' = close_conn conn p in
      record p' { conns = remove id p.conns; clients = remove id p.clients }
]

unfoldable pub close_conns : List (String × ℕ) → Pool → Pool
close_conns [] p = p
close_conns ((id, conn) ∷ rest) p = close_conns rest (close_conn conn p)

unfoldable pub close : Pool → Pool
close p = let p' = close_conns p.conns p in record p' { conns = []; clients = [] }

unfoldable pub len : Pool → ℕ
len p = length p.clients
