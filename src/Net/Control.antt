-- ===== src/Net/Control.antt =====
-- The NetCtl of netctl.go. A connection and a callback are known by numbers; what the code tells
-- them is appended to a log. Counters are uint64.
pub mod Limits
use go_proton_api.Base.{
  ℕ, zero, suc, ◌+◌, ◌-◌, ◌*◌, ◌%◌, Bool, true, false, ◌&&◌, Option, none, some, List, [], ◌∷◌,
  ◌++◌, length, map, take, ltb, leb, if◌then◌else◌,
}

pub data NetEvent : Type 0 where
  closed : ℕ → NetEvent
  dialed : ℕ → ℕ → NetEvent
  seen : ℕ → List ℕ → NetEvent

pub record NetCtl : Type 0 where
  pub can_dial : Bool
  pub dial_limit : ℕ
  pub dial_count : ℕ
  pub on_dial : List ℕ
  pub can_read : Bool
  pub read_limit : ℕ
  pub read_count : ℕ
  pub read_speed : ℕ
  pub on_read : List ℕ
  pub can_write : Bool
  pub write_limit : ℕ
  pub write_count : ℕ
  pub write_speed : ℕ
  pub on_write : List ℕ
  pub conns : List ℕ
  pub log : List NetEvent

-- 2^64.
abbrev pub word : ℕ
word = 18446744073709551616

unfoldable pub new_net_ctl : NetCtl
new_net_ctl = record {
  can_dial = true;
  dial_limit = 0;
  dial_count = 0;
  on_dial = [];
  can_read = true;
  read_limit = 0;
  read_count = 0;
  read_speed = 0;
  on_read = [];
  can_write = true;
  write_limit = 0;
  write_count = 0;
  write_speed = 0;
  on_write = [];
  conns = [];
  log = [];
}

abbrev pub tell : List NetEvent → NetCtl → NetCtl
tell events c = record c { log = c.log ++ events }

-- The range that closes the connections; they stay in the list.
unfoldable pub close_conns : NetCtl → NetCtl
close_conns c = tell (map closed c.conns) c

unfoldable pub set_can_dial : Bool → NetCtl → NetCtl
set_can_dial on c = record c { can_dial = on }

unfoldable pub set_dial_limit : ℕ → NetCtl → NetCtl
set_dial_limit limit c = record c { dial_limit = limit }

unfoldable pub set_can_read : Bool → NetCtl → NetCtl
unfolding close_conns
set_can_read on c = record (close_conns c) { can_read = on }

unfoldable pub set_read_limit : ℕ → NetCtl → NetCtl
unfolding close_conns
set_read_limit limit c = record (close_conns c) { read_limit = limit; read_count = 0 }

unfoldable pub set_read_speed : ℕ → NetCtl → NetCtl
unfolding close_conns
set_read_speed speed c = record (close_conns c) { read_speed = speed }

unfoldable pub set_can_write : Bool → NetCtl → NetCtl
unfolding close_conns
set_can_write on c = record (close_conns c) { can_write = on }

unfoldable pub set_write_limit : ℕ → NetCtl → NetCtl
unfolding close_conns
set_write_limit limit c = record (close_conns c) { write_limit = limit; write_count = 0 }

unfoldable pub set_write_speed : ℕ → NetCtl → NetCtl
unfolding close_conns
set_write_speed speed c = record (close_conns c) { write_speed = speed }

unfoldable pub add_on_dial : ℕ → NetCtl → NetCtl
add_on_dial f c = record c { on_dial = c.on_dial ++ f ∷ [] }

unfoldable pub add_on_read : ℕ → NetCtl → NetCtl
add_on_read f c = record c { on_read = c.on_read ++ f ∷ [] }

unfoldable pub add_on_write : ℕ → NetCtl → NetCtl
add_on_write f c = record c { on_write = c.on_write ++ f ∷ [] }

unfoldable pub disable : NetCtl → NetCtl
unfolding set_can_dial set_can_read set_can_write
disable c = set_can_write false (set_can_read false (set_can_dial false c))

unfoldable pub enable : NetCtl → NetCtl
unfolding set_can_dial set_can_read set_can_write
enable c = set_can_write true (set_can_read true (set_can_dial true c))

pub data NetError : Type 0 where
  not_allowed limit_reached dial_failed device_failed incomplete : NetError

-- `dialer` is the result of the wrapped dialer.
unfoldable pub dial : Option ℕ → NetCtl → Option NetError × NetCtl
dial dialer c =
    if c.can_dial
    then (if ltb 0 c.dial_limit && leb c.dial_limit c.dial_count
        then (some limit_reached, c)
        else elim dialer [
          | none ↦ (some dial_failed, c)
          | some conn ↦ (
            none,
            record c {
              dial_count = (c.dial_count + 1) % word;
              log = c.log ++ map (λ f. dialed f conn) c.on_dial;
              conns = c.conns ++ conn ∷ [];
            },
          )
        ])
    else (some not_allowed, c)

-- The guards of `read` and `write` and the length that they leave of a buffer; subtraction wraps.
unfoldable pub allowance : Bool → ℕ → ℕ → ℕ → Option ℕ
allowance can limit count len =
    let left = (limit + word - count) % word in
    if can
    then (if ltb 0 limit
        then (if leb limit count then none else some (if ltb left len then left else len))
        else some len)
    else none

-- The first section under the lock: the length that may be read, or the error.
unfoldable pub begin_read : ℕ → NetCtl → Option ℕ
unfolding allowance
begin_read len c = allowance c.can_read c.read_limit c.read_count len

-- The second section under the lock.
unfoldable pub end_read : List ℕ → NetCtl → NetCtl
end_read bytes c = record c {
  read_count = (c.read_count + length bytes) % word;
  log = c.log ++ map (λ f. seen f bytes) c.on_read;
}

unfoldable pub begin_write : ℕ → NetCtl → Option ℕ
unfolding allowance
begin_write len c = allowance c.can_write c.write_limit c.write_count len

unfoldable pub end_write : List ℕ → NetCtl → NetCtl
end_write bytes c = record c {
  write_count = (c.write_count + length bytes) % word;
  log = c.log ++ map (λ f. seen f bytes) c.on_write;
}

-- The seconds for which a slow reader or writer sleeps after it moved n bytes.
unfoldable pub slow_delay : ℕ → ℕ → ℕ
slow_delay speed n = n * speed

abbrev pub refusal : Bool → NetError
refusal can = if can then limit_reached else not_allowed

-- `device` is the reader with a buffer of a given size: the bytes that it reads, and whether it fails.
unfoldable pub read : (ℕ → List ℕ × Bool) → ℕ → NetCtl → List ℕ × Option NetError × NetCtl
unfolding begin_read end_read
read device len c = elim (begin_read len c) [
  | none ↦ ([], some (refusal c.can_read), c)
  | some rem ↦
      let (bytes, ok) = device rem in
      (bytes, if ok then none else some device_failed, end_read bytes c)
]

-- `device` says of the bytes that it is given how many it writes, and whether it fails.
unfoldable pub write : (List ℕ → ℕ × Bool) → List ℕ → NetCtl → List ℕ × Option NetError × NetCtl
unfolding begin_write end_write
write device buffer c = elim (begin_write (length buffer) c) [
  | none ↦ ([], some (refusal c.can_write), c)
  | some rem ↦
      let (n, ok) = device (take rem buffer) in
      let bytes = take n buffer in
      (
        bytes,
        if ltb n rem then some incomplete else if ok then none else some device_failed,
        end_write bytes c,
      )
]
