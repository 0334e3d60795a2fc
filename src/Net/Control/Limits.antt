-- ===== src/Net/Control/Limits.antt =====
-- The limits of a NetCtl: what a sequence of reads or writes moves, and what two reads at once do.
use go_proton_api.Base.{
  ℕ, ◌+◌, ◌≤◌, ◌<◌, Bool, some, List, [], ◌∷◌, ◌++◌, length, length-append, length-take, take, ◌≡◌,
  refl, arith, Option-cases, inl, inr, All,
}
use go_proton_api.Net.Control.{
  NetCtl, allowance, begin_read, begin_write, end_read, end_write, read, set_read_limit,
  set_write_limit, word, write,
}

-- An io.Reader reads no more than the buffer holds.
abbrev pub Reader : Type 0
Reader = ℕ → List ℕ × Bool

abbrev pub IsReader : Reader → Type 0
IsReader device = (n : ℕ) → length (device n).0 ≤ n

-- Reads one after the other, each with its reader and the size of its buffer: all that they read.
unfoldable pub read_all : List (Reader × ℕ) → NetCtl → List ℕ × NetCtl
unfolding read
read_all [] c = ([], c)
read_all ((device, len) ∷ reads) c =
    let (bytes, error, c') = read device len c in
    let (more, c'') = read_all reads c' in (bytes ++ more, c'')

unfoldable pub write_all : List ((List ℕ → ℕ × Bool) × List ℕ) → NetCtl → List ℕ × NetCtl
unfolding write
write_all [] c = ([], c)
write_all ((device, buffer) ∷ writes) c =
    let (bytes, error, c') = write device buffer c in
    let (more, c'') = write_all writes c' in (bytes ++ more, c'')

-- What is allowed fits under the limit.
allowance-le :
    (can : Bool) (limit count len rem : ℕ)
    → 0 < limit
    → limit < word
    → count ≤ limit
    → allowance can limit count len ≡ some rem
    → (count + rem ≤ limit) × (rem ≤ len)
unfolding allowance
allowance-le can limit count len rem pos small within h = ground arith

abbrev WithinRead : ℕ → NetCtl → Type 0
WithinRead limit c = (c.read_limit ≡ limit) × (c.read_count ≤ limit)

abbrev WithinWrite : ℕ → NetCtl → Type 0
WithinWrite limit c = (c.write_limit ≡ limit) × (c.write_count ≤ limit)

begin_read-le :
    (len limit rem : ℕ) (c : NetCtl)
    → 0 < limit
    → limit < word
    → WithinRead limit c
    → begin_read len c ≡ some rem
    → (c.read_count + rem ≤ limit) × (rem ≤ len)
unfolding begin_read
begin_read-le len limit rem c positive small w e =
    allowance-le c.can_read limit c.read_count len rem positive small w.1 (rw (← w.0) e)

begin_write-le :
    (len limit rem : ℕ) (c : NetCtl)
    → 0 < limit
    → limit < word
    → WithinWrite limit c
    → begin_write len c ≡ some rem
    → (c.write_count + rem ≤ limit) × (rem ≤ len)
unfolding begin_write
begin_write-le len limit rem c positive small w e =
    allowance-le c.can_write limit c.write_count len rem positive small w.1 (rw (← w.0) e)

read_within :
    (device : Reader) (len limit : ℕ) (c : NetCtl)
    → 0 < limit
    → limit < word
    → IsReader device
    → WithinRead limit c
    → WithinRead limit (read device len c).2
      × ((read device len c).2.read_count ≡ c.read_count + length (read device len c).0)
unfolding read end_read
read_within device len limit c positive small fits w = elim (Option-cases (begin_read len c)) [
  | inl e ↦ rw (read, e) ((w.0, w.1), omega arith)
  | inr (rem, e) ↦
      let bound = begin_read-le len limit rem c positive small w e in
      let short = fits rem in rw (read, e) ((w.0, omega arith), omega arith)
]

write_within :
    (device : List ℕ → ℕ × Bool) (buffer : List ℕ) (limit : ℕ) (c : NetCtl)
    → 0 < limit
    → limit < word
    → ((bytes : List ℕ) → (device bytes).0 ≤ length bytes)
    → WithinWrite limit c
    → WithinWrite limit (write device buffer c).2
      × ((write device buffer c).2.write_count ≡ c.write_count + length (write device buffer c).0)
unfolding write end_write
write_within device buffer limit c positive small fits w =
    elim (Option-cases (begin_write (length buffer) c)) [
      | inl e ↦ rw (write, e) ((w.0, w.1), omega arith)
      | inr (rem, e) ↦
          let bound = begin_write-le (length buffer) limit rem c positive small w e in
          let short = fits (take rem buffer) in
          let given = length-take rem buffer in
          let taken = length-take (device (take rem buffer)).0 buffer in
          rw (write, e) ((w.0, omega arith), omega arith)
    ]

abbrev pub AreReaders : List (Reader × ℕ) → Type 0
AreReaders = All (λ r. IsReader r.0)

-- An io.Writer writes no more than it is given.
abbrev pub AreWriters : List ((List ℕ → ℕ × Bool) × List ℕ) → Type 0
AreWriters = All (λ w. (bytes : List ℕ) → (w.0 bytes).0 ≤ length bytes)

read_all_within :
    (reads : List (Reader × ℕ)) (limit : ℕ) (c : NetCtl)
    → 0 < limit
    → limit < word
    → AreReaders reads
    → WithinRead limit c
    → WithinRead limit (read_all reads c).1
      × ((read_all reads c).1.read_count ≡ c.read_count + length (read_all reads c).0)
unfolding read_all
read_all_within [] limit c positive small fit w = (w, omega arith)
read_all_within ((device, len) ∷ reads) limit c positive small fit w =
    let first = read_within device len limit c positive small fit.0 w in
    let c' = (read device len c).2 in
    let rest = read_all_within reads limit c' positive small fit.1 first.0 in
    (
      rest.0,
      omega (arith, length-append (read device len c).0 (read_all reads c').0, first.1, rest.1),
    )

write_all_within :
    (writes : List ((List ℕ → ℕ × Bool) × List ℕ)) (limit : ℕ) (c : NetCtl)
    → 0 < limit
    → limit < word
    → AreWriters writes
    → WithinWrite limit c
    → WithinWrite limit (write_all writes c).1
      × ((write_all writes c).1.write_count ≡ c.write_count + length (write_all writes c).0)
unfolding write_all
write_all_within [] limit c positive small fit w = (w, omega arith)
write_all_within ((device, buffer) ∷ writes) limit c positive small fit w =
    let first = write_within device buffer limit c positive small fit.0 w in
    let c' = (write device buffer c).2 in
    let rest = write_all_within writes limit c' positive small fit.1 first.0 in
    (
      rest.0,
      omega
          (arith, length-append (write device buffer c).0 (write_all writes c').0, first.1, rest.1),
    )

-- After `SetReadLimit` and `SetWriteLimit` with limits that are not 0 and fit in 64 bits, reads that
-- follow one another read no more bytes than the read limit in all, and likewise for writes, whatever
-- the connections and the sizes of the buffers.
pub limits_hold :
    (reads : List (Reader × ℕ)) (writes : List ((List ℕ → ℕ × Bool) × List ℕ))
    (read_limit write_limit : ℕ) (c : NetCtl)
    → 0 < read_limit
    → read_limit < word
    → 0 < write_limit
    → write_limit < word
    → AreReaders reads
    → AreWriters writes
    → (length (read_all reads (set_read_limit read_limit c)).0 ≤ read_limit)
      × (length (write_all writes (set_write_limit write_limit c)).0 ≤ write_limit)
unfolding set_read_limit set_write_limit
limits_hold reads writes read_limit write_limit c rp rs wp ws readers writers =
    let r =
      read_all_within reads read_limit (set_read_limit read_limit c) rp rs readers
        (refl, omega arith) in
    let w =
      write_all_within writes write_limit (set_write_limit write_limit c) wp ws writers
        (refl, omega arith) in
    (omega (arith, r.0.1, r.1), omega (arith, w.0.1, w.1))
