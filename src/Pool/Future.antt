-- ===== src/Pool/Future.antt =====
-- The futures of future.go and their groups. A future sends its result once: it is known by the value
-- and the error of its function, `none` where the function never returns, and by whether they were
-- received. `waits` is a receive that nothing answers.
use go_proton_api.Base.{Bool, true, false, Option, none, some, List, [], ◌∷◌, ◌++◌}

pub record Future (A Err : Type 0) : Type 0 where
  pub sent : Option (A × Option Err)
  pub received : Bool

pub data Got (A Err : Type 0) : Type 0 where
  waits : Got A Err
  got : A → Got A Err
  failed : Err → Got A Err

abbrev pub outcome : {A Err : Type 0} → A × Option Err → Got A Err
outcome (a, none) = got a
outcome (a, some e) = failed e

-- `Get`.
unfoldable pub get : {A Err : Type 0} → Future A Err → Got A Err × Future A Err
get f = elim f.received [
  | true ↦ (waits, f)
  | false ↦ elim f.sent [ none ↦ (waits, f) | some r ↦ (outcome r, record f { received = true }) ]
]

unfoldable pub add :
    {A Err : Type 0} → Option (A × Option Err) → List (Future A Err) → List (Future A Err)
add result fs = fs ++ record { sent = result; received = false } ∷ []

abbrev pub prepend : {A Err : Type 0} → A → Got (List A) Err → Got (List A) Err
prepend a waits = waits
prepend a (got as') = got (a ∷ as')
prepend a (failed e) = failed e

abbrev pub tail_result :
    {A Err : Type 0}
    → Got A Err
    → Got (List A) Err × List (Future A Err)
    → List (Future A Err)
    → Got (List A) Err × List (Future A Err)
tail_result waits rest fs = (waits, fs)
tail_result (failed e) rest fs = (failed e, fs)
tail_result (got a) (r, fs') fs = (prepend a r, fs')

-- `Result` of a group, which stops at the first error.
unfoldable pub group_result :
    {A Err : Type 0} → List (Future A Err) → Got (List A) Err × List (Future A Err)
unfolding get
group_result [] = (got [], [])
group_result (f ∷ fs) =
    let rest = group_result fs in
    let (r, f') = get f in let (out, fs') = tail_result r rest fs in (out, f' ∷ fs')

-- `ForEach` of a group; `fn` also writes a state.
unfoldable pub for_each_future :
    {A Err S : Type 0} → (A → S → Option Err × S) → List (Future A Err) → S → Got S Err × S
unfolding get
for_each_future fn [] s = (got s, s)
for_each_future fn (f ∷ fs) s = elim (get f).0 [
  | waits ↦ (waits, s)
  | failed e ↦ (failed e, s)
  | got a ↦
      let (e, s') = fn a s in
      elim e [ none ↦ for_each_future fn fs s' | some err ↦ (failed err, s') ]
]
