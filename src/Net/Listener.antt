-- ===== src/Net/Listener.antt =====
-- The Listener of netctl.go and its two kinds of connections. A connection is known by a number, and
-- the connection that it wraps is an argument: what it reads or writes of a buffer of a given size.
use go_proton_api.Base.{
  ℕ, ◌/◌, Bool, true, false, Option, none, some, List, [], ◌∷◌, ◌++◌, if◌then◌else◌,
}

pub record Listener : Type 0 where
  pub can_read : Bool
  pub can_write : Bool
  pub conns : List ℕ
  pub done : Bool
  pub closed : List ℕ

unfoldable pub new_listener : Listener
new_listener = record { can_read = true; can_write = true; conns = []; done = false; closed = [] }

-- `accepted` is the result of the wrapped listener.
unfoldable pub accept : Option ℕ → Listener → Option ℕ × Listener
accept none l = (none, l)
accept (some conn) l = (some conn, record l { conns = l.conns ++ conn ∷ [] })

unfoldable pub set_can_read : Bool → Listener → Listener
set_can_read on l = record l { can_read = on }

unfoldable pub set_can_write : Bool → Listener → Listener
set_can_write on l = record l { can_write = on }

unfoldable pub close : Listener → Listener
close l = record l { done = true }

unfoldable pub drop_all : Listener → Listener
drop_all l = record l { closed = l.closed ++ l.conns }

-- What a read or a write comes to; `waits` is the receive from the channel that is not closed.
pub data Transfer : Type 0 where
  waits : Transfer
  moved : ℕ → Transfer
  failed : ℕ → Transfer
  dropped : ℕ → Transfer

-- The result of the wrapped connection: how much it moved, and whether it failed.
abbrev pub Wrapped : Type 0
Wrapped = ℕ → ℕ × Bool

abbrev pub outcome : ℕ × Bool → Transfer
outcome (n, ok) = if ok then moved n else failed n

unfoldable pub hang_read : Wrapped → ℕ → Listener → Transfer
hang_read inner size l =
    if l.can_read then outcome (inner size) else if l.done then outcome (inner size) else waits

unfoldable pub hang_write : Wrapped → ℕ → Listener → Transfer
hang_write inner size l =
    if l.can_write then outcome (inner size) else if l.done then outcome (inner size) else waits

-- A transfer of half the buffer, after which the connection is closed; `close_works` says whether the
-- close does.
abbrev cut : Bool → ℕ × Bool → Transfer
cut close_works (n, ok) = if ok then (if close_works then dropped n else failed n) else failed n

unfoldable pub drop_read : Bool → Wrapped → ℕ → Listener → Transfer
drop_read close_works inner size l =
    if l.can_read then outcome (inner size) else cut close_works (inner (size / 2))

unfoldable pub drop_write : Bool → Wrapped → ℕ → Listener → Transfer
drop_write close_works inner size l =
    if l.can_write then outcome (inner size) else cut close_works (inner (size / 2))
